-- ===== src/Repository.antt =====
-- internal/repository: the SQLite tables, and one function for each method of the repository.
pub mod Db
pub mod Jobs
pub mod Files
