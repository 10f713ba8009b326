-- ===== src/Executor.antt =====
-- internal/executor: the classification of errors, the rsync executor and the extraction of
-- archives.
pub mod Errors
pub mod Rsync
pub mod Extract
