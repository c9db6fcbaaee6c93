-- ===== src/Lease.antt =====
-- src/remote_runner/_internal/controller/registry.py: the leases on machines, and the drains.
-- A lease file is `leases/<machine_id>.yaml`; an operation runs under the scheduler's lock, so it is
-- one step. Times are whole microseconds; a token is the fresh text that `secrets` gives.
pub mod Record
pub mod Drain
pub mod Acquire
pub mod Release
pub mod Exclusion
pub mod Cycle
