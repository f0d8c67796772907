-- ===== src/Engine.antt =====
-- The matching engine, internal/engine.
pub mod Types
pub mod Book
pub mod Matching
pub mod Ledger
pub mod Emit
pub mod Depth
pub mod Core
pub mod Commands
pub mod Dispatch
pub mod Interleaving
pub mod Backing
pub mod Consumer
pub mod Examples
