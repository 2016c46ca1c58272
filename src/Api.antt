-- ===== src/Api.antt =====
-- The HTTP layer: what the handlers share, and the middleware of the router.
pub mod Reply
pub mod Router
pub mod Guarded
