-- ===== src/Tests/Data.antt =====
-- A world without driver errors, two stored jobs, and a queue on them.
use grabarr.Common.{refl, arith, ◌+◌, true, none, some, [], ◌∷◌, ltb_ℤ, pos, codes, Error, plain}
use grabarr.Models.Job.{Job, JobAttempt, new_job}
use grabarr.Models.Job.Status.{JobStatus}
use grabarr.Models.RemoteFile.{FileStatus, RemoteFile}
use grabarr.Repository.Db.{World, Db, empty_db}
use grabarr.Repository.Jobs.Laws.{IsValid}
use grabarr.Queue.State.{Queue, Env, new_queue}

abbrev pub quiet_world : World
quiet_world = record {
  fault = λ n. none;
  now = λ n. 100 + n;
  order_by = λ column direction. some (λ a b. ltb_ℤ b.priority a.priority);
}

abbrev pub broken : Error
broken = plain (codes "disk full")

abbrev pub broken_world : World
broken_world = record quiet_world { fault = λ n. some broken }

abbrev pub waiting_job : Job
waiting_job = record new_job {
  id = 1;
  name = codes "a.mkv";
  remote_path = codes "/seed/a.mkv";
  local_path = codes "/data/";
  status = JobStatus.queued;
  max_retries = pos 3;
}

abbrev pub running_job : Job
running_job = record waiting_job { id = 2; status = JobStatus.running; started_at = some 50 }

abbrev pub failed_job : Job
failed_job = record waiting_job {
  id = 3;
  status = JobStatus.failed;
  retries = 2;
  updated_at = 60;
  error_message = codes "lost";
}

abbrev pub done_job : Job
done_job = record waiting_job { id = 4; status = JobStatus.completed; completed_at = some 40 }

abbrev pub seen_file : RemoteFile
seen_file = record {
  id = 1;
  remote_path = codes "/seed/a.mkv";
  name = codes "a.mkv";
  size = pos 7;
  extension = codes "mkv";
  status = FileStatus.queued;
  job_id = some 2;
  watched_path = codes "/seed";
  first_seen_at = 10;
  last_seen_at = 20;
  updated_at = 20;
}

abbrev pub four_jobs : Db
four_jobs = record empty_db {
  jobs = waiting_job ∷ running_job ∷ failed_job ∷ done_job ∷ [];
  last_job_id = 4;
  files = seen_file ∷ [];
  last_file_id = 1;
}

abbrev pub settings : Env
settings = record {
  world = quiet_world;
  jobs = record {
    max_concurrent = pos 2;
    max_retries = pos 3;
    cleanup_completed_after = 10;
    cleanup_failed_after = 10;
  };
  extraction = record { enabled = true; cleanup_archives = true };
  gate = λ n size. true;
  notifier_enabled = true;
  format_time = λ t. [];
  errorf = λ format. format;
}

abbrev pub one_waits : Queue
one_waits = record (new_queue four_jobs) {
  active_jobs = (2, 1) ∷ [];
  last_context = 1;
  job_queue = waiting_job ∷ [];
}

abbrev pub first_attempt : JobAttempt
first_attempt = record {
  id = 1;
  job_id = 2;
  attempt_num = 1;
  status = JobStatus.running;
  error_message = [];
  started_at = 50;
  ended_at = none;
  log_data = [];
}

pub table-IsValid : IsValid four_jobs
table-IsValid = record {
  unique = (refl, (refl, (refl, (refl, tt))));
  bounded = (omega arith, (omega arith, (omega arith, (omega arith, tt))));
}
