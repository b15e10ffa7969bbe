-- ===== src/Sys.antt =====
-- server_frame/sys: namespace sys.
pub mod Env
