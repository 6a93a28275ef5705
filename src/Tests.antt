-- ===== src/Tests.antt =====
-- Runs of the code on a small chain, and the theorems at these inputs.
pub mod Chain
pub mod Signing
pub mod Codec
pub mod Service
pub mod Files
pub mod Router
pub mod Parts
pub mod Lifetime
pub mod Wiring
pub mod Sorting
pub mod Wallets
pub mod Traffic
pub mod Nodes
pub mod Itest
pub mod Metrics
pub mod Root
pub mod Calls
