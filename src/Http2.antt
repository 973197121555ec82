-- ===== src/Http2.antt =====
-- http2.cc: paths, status codes, and the tables of names.
pub mod Path
pub mod Status
pub mod Tokens
pub mod Reason
pub mod Link
pub mod Fields
