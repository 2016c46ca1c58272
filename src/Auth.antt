-- ===== src/Auth.antt =====
-- Authentication: internal/auth, internal/repository/users.go and internal/api/auth.
pub mod Model
pub mod Service
pub mod Handlers
pub mod Login
pub mod Sessions
