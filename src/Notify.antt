-- ===== src/Notify.antt =====
-- internal/notify and internal/repository/notifications.go: notification channels and their fan-out.
pub mod Model
pub mod Repo
pub mod Service
pub mod Format
pub mod Sending
pub mod Stale
pub mod Validity
pub mod Decimal
pub mod Handlers
pub mod Requests
