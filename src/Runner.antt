-- ===== src/Runner.antt =====
-- internal/runner: the worker and the executor of one task.
pub mod Outcome
pub mod Observers
pub mod Truncation
pub mod Captcha
pub mod Tail
pub mod Worker
pub mod Slots
pub mod Draining
pub mod Unzip
pub mod Extraction
pub mod Inside
pub mod Interpreter
pub mod Installed
pub mod Executor
pub mod Refused
pub mod Ends
pub mod Connection
pub mod Delivery
pub mod Config
