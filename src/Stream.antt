-- ===== src/Stream.antt =====
-- The HTTP transport: requests and responses of a stream, the streams of a connection, and the flow
-- from a request to its response.
pub mod Reply
pub mod Submit
pub mod Request
pub mod Connection
pub mod Http1
