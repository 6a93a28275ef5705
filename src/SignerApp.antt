-- ===== src/SignerApp.antt =====
-- signerapp: the checks on a signing request, and what they are built on.
pub mod Interfaces
pub mod Signer
pub mod ParamsRetriever
pub mod ChainInfo
pub mod PsbtSigner
pub mod PrivKeySigner
pub mod WalletErrors
pub mod Assembly
pub mod Asked
pub mod Calls
