-- ===== src/Tests.antt =====
-- The theorems at concrete inputs.
mod Fixtures
mod Summaries
mod Registries
mod Pools
mod Codecs
mod Storage
mod Stores
mod Queries
mod Checks
mod Monitors
mod Sessions
mod Logins
mod Deliveries
mod Routes
