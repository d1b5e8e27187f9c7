-- ===== src/Service.antt =====
-- The service of one server in src/nntp/service.rs: calls with equal keys share one request, and
-- each kind of request goes to its queue. Many callers run at once; what one of them does between
-- two waits is one step.
pub mod Coalescing
pub mod Invariant
pub mod Kept
pub mod Answers
pub mod Calls
pub mod Steps
pub mod Bounds
mod Examples
