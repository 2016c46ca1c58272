-- ===== src/Task.antt =====
-- internal/task/service.go and internal/repository/tasks.go: the task table, the state machine that
-- updates drive, the retries and the dispatch loop.
pub mod Model
pub mod Repo
pub mod Assign
pub mod Service
pub mod Handlers
pub mod Listing
pub mod Outputs
pub mod Stream
pub mod Live
pub mod Dispatch
pub mod Statements
pub mod Retrying
pub mod Updating
pub mod Moves
pub mod Chain
pub mod Dispatching
pub mod Bounds
pub mod Told
pub mod Ordering
pub mod Offers
