-- ===== src/Partition.antt =====
-- Who processes which commands: internal/partition (the router, the lease and the fencing tokens)
-- and the ownership loop of internal/engine/worker.go.
pub mod Router
pub mod Lease
pub mod Ownership
pub mod Uniqueness
pub mod Examples
