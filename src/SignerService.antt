-- ===== src/SignerService.antt =====
-- signerservice: the HTTP service, from a request's bytes to a response's, and its client.
pub mod Types
pub mod Http
pub mod Handlers
pub mod Responses
pub mod Middlewares
pub mod Router
pub mod Server
pub mod Client
