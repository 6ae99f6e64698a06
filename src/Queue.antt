-- ===== src/Queue.antt =====
-- src/hil_controller/queue
pub mod Leases
pub mod Worker
pub mod Scheduler
