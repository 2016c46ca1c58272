-- ===== src/Hub.antt =====
-- internal/hub/hub.go: the master's side of the worker streams.
pub mod Model
pub mod Ops
pub mod Flow
pub mod Frames
pub mod Invariant
pub mod Reach
pub mod Lookups
pub mod Placement
pub mod Slots
pub mod States
pub mod Races
pub mod Views
