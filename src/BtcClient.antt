-- ===== src/BtcClient.antt =====
-- btcclient: calls of a bitcoind node.
pub mod Status
pub mod Node
pub mod Inputs
pub mod Wallet
pub mod Connection
