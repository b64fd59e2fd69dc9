-- ===== src/Database.antt =====
-- src/database/: the migrations of the schema, the connection pool and the transactions on it.
pub mod Migrations
pub mod Pool
pub mod Execute
