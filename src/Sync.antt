-- ===== src/Sync.antt =====
-- internal/sync: the queue, the schedule and the transfer pipeline.
pub mod Item
pub mod Engine
pub mod Claim
pub mod History
pub mod Outcome
pub mod Runs
pub mod Actions
pub mod Budget
pub mod Names
pub mod Scan
pub mod Walk
pub mod Ticked
pub mod Start
pub mod Reload
pub mod Room
pub mod Upload
pub mod Retries
pub mod Staging
pub mod Owner
pub mod Transfer
pub mod Tests
