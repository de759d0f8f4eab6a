-- ===== src/Gateway.antt =====
-- internal/gateway/server.go: the handlers of the registry protocol.
pub mod Types
pub mod Paths
pub mod Answers
pub mod Access
pub mod Uploads
pub mod Server
mod Tests
mod Routes
mod Denial
mod Isolation
mod Reach
mod Serving
mod Failures
mod Sound
mod Chunks
mod Refinement
mod Unchanged
mod Sessions
