-- ===== src/Container.antt =====
-- server_frame/bytearray.h and bytearray.cc: namespace container.
pub mod ByteArray
