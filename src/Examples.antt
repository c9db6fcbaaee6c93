-- ===== src/Examples.antt =====
-- Concrete runs of the theorems, with small inputs.
pub mod Data
pub mod Leases
pub mod Queues
pub mod Batches
pub mod Runs
pub mod Reports
pub mod Registry
pub mod Tombstones
pub mod Derived
pub mod Cycles
