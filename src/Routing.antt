-- ===== src/Routing.antt =====
-- safety/routing: what the directions endpoints share for the life of the process.
pub mod Breaker
pub mod Budget
pub mod Client
pub mod Errors
pub mod Polyline
pub mod Scoring
pub mod Throttle
mod Tests
pub mod TtlCache
