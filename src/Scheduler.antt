-- ===== src/Scheduler.antt =====
-- internal/scheduler: machine slots as claim files, under one lock.
pub mod Claims
pub mod Choose
pub mod Files
pub mod Operations
pub mod Slots
pub mod Chosen
pub mod Capacity
pub mod Reserving
pub mod Rollback
pub mod Reserved
pub mod Full
pub mod Lightest
