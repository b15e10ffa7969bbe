-- ===== src/Base.antt =====
-- server_frame/base: the pieces that the event loop is built from.
pub mod Timer
pub mod FdManager
pub mod Fiber
pub mod Scheduler
