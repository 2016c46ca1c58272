-- ===== src/Spider.antt =====
-- internal/spider: spiders and their sources.
pub mod Model
pub mod Repo
pub mod Source
pub mod Service
pub mod Handlers
pub mod Uploaded
pub mod Syncing
