-- ===== src/Models/RemoteFile.antt =====
-- internal/models/remote_file.go
use grabarr.Common.{ℕ, Bool, ◌==◌, Option, Text, ℤ}
use grabarr.Models.Job.{Time}

-- No stored file has `any_status`, the empty string, which a filter reads as no filter, nor
-- `other_status`, which stands for any other text in a query.
pub data FileStatus : Type 0 where
  any_status on_seedbox queued downloading downloaded ignored other_status : FileStatus

abbrev file_status_index : FileStatus → ℕ
file_status_index any_status = 0
file_status_index on_seedbox = 1
file_status_index queued = 2
file_status_index downloading = 3
file_status_index downloaded = 4
file_status_index ignored = 5
file_status_index other_status = 6

abbrev pub file_status_eq : FileStatus → FileStatus → Bool
file_status_eq a b = file_status_index a == file_status_index b

pub record RemoteFile : Type 0 where
  pub id : ℕ
  pub remote_path : Text
  pub name : Text
  pub size : ℤ
  pub extension : Text
  pub status : FileStatus
  pub job_id : Option ℕ
  pub watched_path : Text
  pub first_seen_at : Time
  pub last_seen_at : Time
  pub updated_at : Time

pub record RemoteFileFilter : Type 0 where
  pub status : FileStatus
  pub watched_path : Text
  pub extension : Text
  pub limit : ℤ
  pub offset : ℤ
