-- ===== src/Tests.antt =====
-- Concrete policies, worlds and runs at which the conditional theorems apply.
mod Retry
mod Task
mod Hub
mod Runner
mod Notify
mod Sink
mod Schedule
mod Spider
mod Auth
mod Interpreter
mod Live
