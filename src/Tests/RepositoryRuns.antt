-- ===== src/Tests/RepositoryRuns.antt =====
-- internal/repository: the statements on concrete tables.
use grabarr.Common.{◌≡◌, refl, none, [], ◌∷◌, pos, codes, ok}
use grabarr.Models.Job.{Job, JobFilter, JobSummary, no_filter}
use grabarr.Models.Job.Status.{JobStatus}
use grabarr.Models.RemoteFile.{FileStatus, RemoteFile}
use grabarr.Repository.Db.{Db, empty_db}
use grabarr.Repository.Jobs.{get_job_summary, get_jobs, count_jobs}
use grabarr.Tests.Data.{quiet_world, waiting_job, failed_job, seen_file, four_jobs}

abbrev summary : JobSummary
summary = record {
  total_jobs = 4;
  queued_jobs = 1;
  pending_jobs = 0;
  running_jobs = 1;
  completed_jobs = 1;
  failed_jobs = 1;
  cancelled_jobs = 0;
}

summarised : (get_job_summary quiet_world four_jobs).0 ≡ ok summary
unfolding get_job_summary
summarised = refl

abbrev one_failed : JobFilter
one_failed = record no_filter { status = JobStatus.failed ∷ []; limit = pos 5 }

found_failed : (get_jobs quiet_world one_failed four_jobs).0 ≡ ok (failed_job ∷ [])
unfolding get_jobs
found_failed = refl

counted_failed : (count_jobs quiet_world one_failed four_jobs).0 ≡ ok 1
unfolding count_jobs
counted_failed = refl

abbrev seen_again_file : RemoteFile
seen_again_file = record seen_file {
  status = FileStatus.on_seedbox;
  job_id = none;
  last_seen_at = 90;
}

abbrev urgent_job : Job
urgent_job = record waiting_job { id = 6; priority = pos 5 }

abbrev by_urgency : JobFilter
by_urgency = record no_filter {
  sort_by = codes "priority";
  sort_order = codes "DESC";
  limit = pos 10;
}

abbrev two_priorities : Db
two_priorities = record empty_db { jobs = waiting_job ∷ urgent_job ∷ []; last_job_id = 6 }

urgent_first :
    (get_jobs quiet_world by_urgency two_priorities).0 ≡ ok (urgent_job ∷ waiting_job ∷ [])
unfolding get_jobs
urgent_first = refl
