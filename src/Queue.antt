-- ===== src/Queue.antt =====
-- src/remote_runner/_internal/controller/registry.py: the durable queue of a project.
pub mod Job
pub mod Valid
pub mod State
pub mod Store
pub mod Transition
pub mod Reserve
pub mod Update
pub mod Extend
pub mod Order
pub mod Purge
