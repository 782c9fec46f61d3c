-- ===== src/Repo.antt =====
-- The replay repositories: backend/app/repositories/replays.py.
pub mod Replays
pub mod Jobs
pub mod Recovery
pub mod Retention
pub mod Artifacts
pub mod Sound
pub mod Transition
pub mod Queueing
pub mod Steps
pub mod Reach
pub mod Buried
pub mod Claims
