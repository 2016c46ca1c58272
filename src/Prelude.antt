-- ===== src/Prelude.antt =====
-- The names that the other modules share.
pub mod Tests
pub mod Lists
pub mod Base
pub mod Int
pub mod Text
pub mod Json
pub mod Path
