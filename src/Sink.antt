-- ===== src/Sink.antt =====
-- internal/hub/sinks.go and AppendJSONL of internal/storage/minio.go: where a worker's output goes.
pub mod Model
pub mod Log
pub mod Flow
pub mod Lookup
pub mod Shifts
pub mod Steps
pub mod Keeping
pub mod Tables
pub mod Rows
pub mod Index
pub mod Agreement
