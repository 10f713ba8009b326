-- ===== src/Models/Job.antt =====
-- internal/models/job.go. Times are numbers and 0 is Go's zero time; a whole-number percentage
-- stands for the float, since the only writers are `MarkCompleted` and the parser of rsync's
-- integer percentages. A retry counter starts at 0 and only grows or is reset.
pub mod Status
use Status.{JobStatus, status_eq}
use grabarr.Common.{
  ℕ, suc, ◌+◌, ◌≡◌, Bool, true, false, ◌&&◌, ◌||◌, Option, none, some, List, [], ◌∷◌, ℤ, pos, ltb_ℤ,
  Text, codes, ◌=t◌, if◌then◌else◌,
}
use grabarr.Models.DownloadConfig.{DownloadConfig}

abbrev pub Time : Type 0
Time = ℕ

pub record JobProgress : Type 0 where
  pub percentage : ℕ
  pub transferred_bytes : ℤ
  pub total_bytes : ℤ
  pub transfer_speed : ℤ
  pub eta : Option Time
  pub current_file : Text
  pub files_completed : ℤ
  pub files_total : ℤ
  pub last_update_time : Time

-- A value of an `interface{}` in the extra fields: a string, or any other value by its JSON text.
pub data Extra : Type 0 where
  string : Text → Extra
  other : Text → Extra

pub record JobMetadata : Type 0 where
  pub qbittorrent_hash : Text
  pub category : Text
  pub torrent_name : Text
  pub tags : List Text
  pub source_ip : Text
  pub user_agent : Text
  pub rclone_args : List Text
  pub extra_fields : List (Text × Extra)

pub record Job : Type 0 where
  pub id : ℕ
  pub name : Text
  pub remote_path : Text
  pub local_path : Text
  pub status : JobStatus
  pub priority : ℤ
  pub retries : ℕ
  pub max_retries : ℤ
  pub error_message : Text
  pub progress : JobProgress
  pub metadata : JobMetadata
  pub download_config : Option DownloadConfig
  pub created_at : Time
  pub updated_at : Time
  pub started_at : Option Time
  pub completed_at : Option Time
  pub file_size : ℤ
  pub transferred_bytes : ℤ
  pub transfer_speed : ℤ

pub record JobAttempt : Type 0 where
  pub id : ℕ
  pub job_id : ℕ
  pub attempt_num : ℕ
  pub status : JobStatus
  pub error_message : Text
  pub started_at : Time
  pub ended_at : Option Time
  pub log_data : Text

-- The zero values of Go, from which `&models.Job{…}` starts.
abbrev pub no_progress : JobProgress
no_progress = record {
  percentage = 0;
  transferred_bytes = pos 0;
  total_bytes = pos 0;
  transfer_speed = pos 0;
  eta = none;
  current_file = [];
  files_completed = pos 0;
  files_total = pos 0;
  last_update_time = 0;
}

abbrev pub no_metadata : JobMetadata
no_metadata = record {
  qbittorrent_hash = [];
  category = [];
  torrent_name = [];
  tags = [];
  source_ip = [];
  user_agent = [];
  rclone_args = [];
  extra_fields = [];
}

abbrev pub new_job : Job
new_job = record {
  id = 0;
  name = [];
  remote_path = [];
  local_path = [];
  status = JobStatus.unset;
  priority = pos 0;
  retries = 0;
  max_retries = pos 0;
  error_message = [];
  progress = no_progress;
  metadata = no_metadata;
  download_config = none;
  created_at = 0;
  updated_at = 0;
  started_at = none;
  completed_at = none;
  file_size = pos 0;
  transferred_bytes = pos 0;
  transfer_speed = pos 0;
}

abbrev pub is_active : Job → Bool
is_active j = status_eq j.status JobStatus.running || status_eq j.status JobStatus.pending

abbrev pub is_completed : Job → Bool
is_completed j =
    status_eq j.status JobStatus.completed
    || status_eq j.status JobStatus.failed
    || status_eq j.status JobStatus.cancelled

abbrev pub can_retry : Job → Bool
can_retry j = status_eq j.status JobStatus.failed && ltb_ℤ (pos j.retries) j.max_retries

-- The two readings of the clock are `now` and `later`.
abbrev pub update_progress : JobProgress → (now later : Time) → Job → Job
update_progress p now later j = record j {
  progress = record p { last_update_time = now };
  transferred_bytes = p.transferred_bytes;
  transfer_speed = p.transfer_speed;
  updated_at = later;
}

abbrev pub mark_started : Time → Job → Job
mark_started now j = record j {
  status = JobStatus.running;
  started_at = some now;
  updated_at = now;
}

abbrev pub mark_completed : Time → Job → Job
mark_completed now j = record j {
  status = JobStatus.completed;
  completed_at = some now;
  updated_at = now;
  progress = record j.progress { percentage = 100 };
}

abbrev pub mark_failed : Text → Time → Job → Job
mark_failed message now j = record j {
  status = JobStatus.failed;
  error_message = message;
  updated_at = now;
}

abbrev pub mark_cancelled : Time → Job → Job
mark_cancelled now j = record j { status = JobStatus.cancelled; updated_at = now }

abbrev pub increment_retry : Time → Job → Job
increment_retry now j = record j {
  retries = j.retries + 1;
  status = JobStatus.queued;
  updated_at = now;
  error_message = [];
}

-- `ExtraFields[key].(string)`: none where the key is missing or its value is no string. A nil map
-- is the empty one.
abbrev pub extra_string : Text → List (Text × Extra) → Option Text
extra_string key [] = none
extra_string key ((k, v) ∷ rest) =
    if k =t key then elim v [ string t ↦ some t | other t ↦ none ] else extra_string key rest

abbrev pub archive_group : Job → Text
archive_group j = elim (extra_string (codes "archive_group") j.metadata.extra_fields) [
  | some group ↦ group
  | none ↦ []
]

abbrev pub is_extraction_job : Job → Bool
is_extraction_job j = elim (extra_string (codes "job_type") j.metadata.extra_fields) [
  | some kind ↦ kind =t codes "extraction"
  | none ↦ false
]

-- `nil` and empty values mean that the query does not filter by the field.
pub record JobFilter : Type 0 where
  pub status : List JobStatus
  pub category : Text
  pub min_priority : Option ℤ
  pub max_priority : Option ℤ
  pub limit : ℤ
  pub offset : ℤ
  pub sort_by : Text
  pub sort_order : Text

abbrev pub no_filter : JobFilter
no_filter = record {
  status = [];
  category = [];
  min_priority = none;
  max_priority = none;
  limit = pos 0;
  offset = pos 0;
  sort_by = [];
  sort_order = [];
}

pub record JobSummary : Type 0 where
  pub total_jobs : ℕ
  pub queued_jobs : ℕ
  pub pending_jobs : ℕ
  pub running_jobs : ℕ
  pub completed_jobs : ℕ
  pub failed_jobs : ℕ
  pub cancelled_jobs : ℕ
