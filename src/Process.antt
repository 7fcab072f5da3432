-- ===== src/Process.antt =====
-- kernel/src/usermode.c: processes, their environment, users, descriptors and scheduling.
pub mod Env
pub mod Files
pub mod Open
pub mod Access
pub mod Schedule
pub mod Stack
mod Tests
