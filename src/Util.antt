-- ===== src/Util.antt =====
-- server_frame/util: namespace util.
pub mod Hex
pub mod Url
pub mod Trim
pub mod Split
pub mod Base64
