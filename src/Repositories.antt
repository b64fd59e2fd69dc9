-- ===== src/Repositories.antt =====
-- src/repositories: what the repositories share.
pub mod ListQuery
mod Tests
