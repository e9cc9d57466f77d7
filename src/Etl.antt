-- ===== src/Etl.antt =====
-- safety/etl: from the cities' open data to the silver table.
pub mod Ingest
pub mod History
pub mod CatchUp
pub mod Pending
pub mod Promote
pub mod Schedule
pub mod Validate
pub mod Windows
pub mod Withdrawn
mod Tests
