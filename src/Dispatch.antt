-- ===== src/Dispatch.antt =====
-- dispatcher.py: which queued job goes to which machine.
pub mod Capacity
pub mod Select
pub mod Plan
