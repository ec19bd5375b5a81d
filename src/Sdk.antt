-- ===== src/Sdk.antt =====
-- The TypeScript SDK: sdk/src.
pub mod Number
pub mod Math
pub mod Indexer
pub mod Solana
pub mod Pda
pub mod Client
