-- ===== src/Migrate.antt =====
-- safety/migrate.py: the schema's migrations, the severity schemes, and the backfills of silver.
pub mod Schema
pub mod Hours
pub mod Lock
pub mod Schemes
pub mod Weights
mod Tests
