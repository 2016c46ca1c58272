-- ===== src/Schedule.antt =====
-- Schedules: internal/schedule, internal/repository/schedules.go and internal/api/schedules.
pub mod Model
pub mod Repo
pub mod Service
pub mod Daemon
pub mod Runner
pub mod Handlers
pub mod Rows
pub mod Requests
pub mod Checks
pub mod Validity
pub mod Daemons
pub mod Running
pub mod Reloading
pub mod Steady
pub mod Syncing
pub mod Firing
