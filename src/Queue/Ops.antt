-- ===== src/Queue/Ops.antt =====
-- internal/queue/queue.go: the operations that the API and the scanner call.
pub mod Laws
use grabarr.Common.{
  ℕ, Bool, true, false, not, Option, none, some, List, [], ◌∷◌, ◌++◌, if◌then◌else◌, eq_ℤ, ℤ, pos,
  Text, codes, Error, plain, wrapped, error_text, Result, ok, err, Action, pure, fail, get, modify,
  attempt, or_wrap, ◌>>=◌, ◌>>◌,
}
use grabarr.Models.Job.{Job, JobFilter, JobSummary, is_completed, mark_cancelled}
use grabarr.Models.Job.Status.{JobStatus, status_eq}
use grabarr.Repository.Db.{time_now}
use grabarr.Repository.Jobs
use grabarr.Queue.State.{Queue, Env, system_alert, on_db, try_send, notify, cancel_active}

-- The text of a status, as `%s` prints it.
abbrev pub status_text : JobStatus → Text
status_text JobStatus.unset = []
status_text JobStatus.queued = codes "queued"
status_text JobStatus.pending = codes "pending"
status_text JobStatus.running = codes "running"
status_text JobStatus.completed = codes "completed"
status_text JobStatus.failed = codes "failed"
status_text JobStatus.cancelled = codes "cancelled"

module _ (env : Env) where
  -- The defaults that Enqueue sets.
  abbrev pub with_defaults : Job → Job
  with_defaults j = record j {
    status = if status_eq j.status JobStatus.unset then JobStatus.queued else j.status;
    max_retries = if eq_ℤ j.max_retries (pos 0) then env.jobs.max_retries else j.max_retries;
  }

  -- The text of the error is the format of `fmt.Errorf`.
  abbrev pub enqueue_failed : Job → Error → Action Queue Job
  enqueue_failed j e =
      notify env (
        system_alert (codes "Job Queue Failure")
          (codes "Failed to enqueue job '" ++ (j.name ++ (codes "': " ++ error_text e))) (pos 1))
      >> fail (plain (env.errorf (codes "failed to create job in database: " ++ error_text e)))

  -- Returns the job with its id. A full channel is no error: the job is in the database.
  unfoldable pub enqueue : Job → Action Queue Job
  enqueue j = do
    let full = with_defaults j
    created ← attempt (on_db (Jobs.create_job env.world full))
    elim created [ err e ↦ enqueue_failed full e | ok saved ↦ try_send saved >> pure saved ]

  unfoldable pub get_job : ℕ → Action Queue Job
  get_job id = on_db (Jobs.get_job env.world id)

  unfoldable pub get_jobs : JobFilter → Action Queue (List Job)
  get_jobs filter = on_db (Jobs.get_jobs env.world filter)

  unfoldable pub count_jobs : JobFilter → Action Queue ℕ
  count_jobs filter = on_db (Jobs.count_jobs env.world filter)

  unfoldable pub get_summary : Action Queue JobSummary
  get_summary = on_db (Jobs.get_job_summary env.world)

  unfoldable pub cancel_job : ℕ → Action Queue Unit
  cancel_job id = do
    cancel_active id
    j ← or_wrap (on_db (Jobs.get_job env.world id)) (codes "failed to get job")
    now ← on_db (time_now env.world)
    if is_completed j
        then pure tt
        else or_wrap (on_db (Jobs.update_job env.world (mark_cancelled now j)))
            (codes "failed to update job status")

  unfoldable pub delete_job : ℕ → Action Queue Unit
  delete_job id =
      cancel_active id
      >> or_wrap (on_db (Jobs.delete_job env.world id)) (codes "failed to delete job")

  -- A manual retry starts afresh. A full channel is an error, after the row was reset.
  unfoldable pub retry_job : ℕ → Action Queue Unit
  retry_job id = do
    j ← or_wrap (on_db (Jobs.get_job env.world id)) (codes "failed to get job")
    if status_eq j.status JobStatus.failed
        then (do
          let fresh = record j { status = JobStatus.queued; error_message = []; retries = 0 }
          or_wrap (on_db (Jobs.update_job env.world fresh)) (codes "failed to update job status")
          sent ← try_send fresh
          if sent then pure tt else fail (plain (codes "job queue is full, cannot retry job")))
        else fail (
            plain (
              codes "job is not in failed status (current status: "
              ++ (status_text j.status ++ codes ")")))
