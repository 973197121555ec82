-- ===== src/Tests.antt =====
-- Runs of the definitions on small inputs, and the properties applied to them.
pub mod Matching
mod Texts
mod Routing
mod Transport
mod Streams
mod Pipeline
mod Serving
mod Parsed
mod Allocated
mod Received
mod Posted
mod Printed
