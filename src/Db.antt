-- ===== src/Db.antt =====
-- internal/db: the drivers of databases.
pub mod Params
pub mod Session
pub mod Query
mod Tests
