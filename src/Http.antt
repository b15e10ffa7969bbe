-- ===== src/Http.antt =====
-- server_frame/http: namespace http.
pub mod Servlet
pub mod Fields
pub mod Method
pub mod Request
pub mod Status
pub mod Dump
pub mod Response
pub mod Connection
