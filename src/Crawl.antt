-- ===== src/Crawl.antt =====
-- src/archive_tool: the persistent crawl state, the monitor's checks and the adaptive strategies.
pub mod Env
pub mod State
pub mod Strategies
pub mod Monitor
pub mod Intervention
pub mod Stages
pub mod Start
mod Tests
