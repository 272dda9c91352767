-- ===== src/WalletDb.antt =====
-- The wallet database that the node gives to BDK (lexe-ln/src/wallet/db/mod.rs).
pub mod Library
pub mod KeyPath
pub mod Data
pub mod Operations
pub mod Batch
pub mod Handle
pub mod Invariant
pub mod View
pub mod Iteration
pub mod Scripts
mod Tests
