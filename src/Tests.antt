-- ===== src/Tests.antt =====
-- Runs of the definitions on concrete data, and the theorems at concrete data.
mod Samples
mod Monitoring
mod Commands
mod Showing
mod Timing
mod Latest
mod Lifecycle
mod Login
mod Entities
mod Platforms
mod Coverage
