-- ===== src/Queue/Archives.antt =====
-- internal/queue/queue.go: checkArchiveGroupComplete, which creates the extraction job of a group
-- of archive parts.
pub mod Laws
use grabarr.Common.{
  ℕ, Bool, true, false, not, ◌&&◌, Option, none, some, List, [], ◌∷◌, ◌++◌, if◌then◌else◌, any, ℤ,
  pos, Text, codes, base, join, Result, ok, err, Action, pure, logged, attempt, ◌>>=◌, ◌>>◌,
}
use grabarr.Archive.{is_first_part}
use grabarr.Models.Job.{Job, string, new_job, no_metadata, is_extraction_job}
use grabarr.Models.Job.Status.{JobStatus, status_eq}
use grabarr.Repository.Jobs.{get_jobs_by_archive_group}
use grabarr.Queue.State.{Queue, Env, on_db}
use grabarr.Queue.Ops.{enqueue}

-- The three variables of the first loop.
abbrev pub has_extraction_job : List Job → Bool
has_extraction_job = any is_extraction_job

abbrev pub group_files : List Job → List Text
group_files [] = []
group_files (j ∷ js) = if is_extraction_job j then group_files js else j.name ∷ group_files js

abbrev pub all_completed : List Job → Bool
all_completed [] = true
all_completed (j ∷ js) =
    if is_extraction_job j
    then all_completed js
    else status_eq j.status JobStatus.completed && all_completed js

-- The second loop.
abbrev pub first_part_job : List Text → List Job → Option Job
first_part_job files [] = none
first_part_job files (j ∷ js) =
    let rest = first_part_job files js in
    if is_extraction_job j then rest else if is_first_part j.name files then some j else rest

abbrev pub extraction_job : Env → Text → Job → Job
extraction_job env group first = record new_job {
  name = codes "extract: " ++ base group;
  remote_path = join first.local_path first.name;
  local_path = first.local_path;
  status = JobStatus.queued;
  priority = pos 1;
  max_retries = env.jobs.max_retries;
  metadata = record no_metadata {
    extra_fields =
        (codes "job_type", string (codes "extraction"))
        ∷ (codes "archive_group", string group)
        ∷ [];
  };
}

-- The job to create for the jobs of a group, if any.
unfoldable pub plan_extraction : Env → Text → List Job → Option Job
plan_extraction env group group_jobs =
    if all_completed group_jobs
    then if has_extraction_job group_jobs
      then none
      else elim (first_part_job (group_files group_jobs) group_jobs) [
        | none ↦ none
        | some first ↦ some (extraction_job env group first)
      ]
    else none

abbrev pub enqueue_planned : Env → Option Job → Action Queue Unit
enqueue_planned env none = pure tt
enqueue_planned env (some j) = logged (enqueue env j)

unfoldable pub check_archive_group_complete : Env → Text → Action Queue Unit
unfolding plan_extraction
check_archive_group_complete env group = do
  found ← attempt (on_db (get_jobs_by_archive_group env.world group))
  elim found [
    | err e ↦ pure tt
    | ok group_jobs ↦ enqueue_planned env (plan_extraction env group group_jobs)
  ]
