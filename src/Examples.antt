-- ===== src/Examples.antt =====
-- Sample servers and settings, the tests, and the theorems at concrete inputs.
mod Codec
mod Sample
mod Commits
mod Failures
mod Queues
mod Agents
mod Approvals
mod Services
mod Watching
mod Requests
mod Arrivals
mod Endpoints
mod Emissions
mod Stops
mod Races
mod Threads
