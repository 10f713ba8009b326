-- ===== src/Models.antt =====
-- internal/models: jobs, remote files, download settings.
pub mod Job
pub mod RemoteFile
pub mod DownloadConfig
