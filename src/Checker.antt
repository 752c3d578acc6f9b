-- ===== src/Checker.antt =====
-- internal/checker: propagation checks.
pub mod Request
pub mod Summary
pub mod State
pub mod Permalink
pub mod FanOut
pub mod Check
pub mod Stream
pub mod Trace
pub mod Lookup
pub mod ResolverList
