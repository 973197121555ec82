-- ===== src/Response.antt =====
-- H2Server_Response.h: JSON pointers, placeholders, arguments and the responses made of them.
pub mod Pointer
pub mod Tokens
pub mod Argument
pub mod Produce
