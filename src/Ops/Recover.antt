-- ===== src/Ops/Recover.antt =====
-- scripts/vps-crawl-auto-recover.py: a watchdog that recovers stalled crawls, and its `main`.
pub mod Host
pub mod Fixes
pub mod Annual
pub mod Options
pub mod Healing
pub mod Healed
pub mod History
pub mod Runner
pub mod Sync
pub mod Watch
pub mod Prepare
pub mod Act
pub mod Start
pub mod Main
pub mod DryRun
pub mod Ends
pub mod Idle
pub mod Counts
pub mod Counted
pub mod Capped
pub mod Restart
