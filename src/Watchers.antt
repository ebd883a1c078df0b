-- ===== src/Watchers.antt =====
-- core/watchers: the two watchers that poll the outside and keep a bounded history.
pub mod Integrity
pub mod Ci
pub mod History
pub mod Classed
pub mod Polls
pub mod Kept
pub mod Repos
pub mod Complete
pub mod Flaky
