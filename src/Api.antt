-- ===== src/Api.antt =====
-- safety/api: the public HTTP API.
pub mod RateLimit
pub mod StampedCache
mod Tests
