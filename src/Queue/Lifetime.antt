-- ===== src/Queue/Lifetime.antt =====
-- internal/queue/queue.go: Start with the recovery of jobs, Stop, and the cleanup.
pub mod Recovery
pub mod Stopping
use grabarr.Common.{
  ℕ, ◌-◌, Bool, true, false, ◌||◌, Option, none, some, List, [], ◌∷◌, ◌++◌, if◌then◌else◌, map,
  for_each, codes, plain, Result, ok, err, Action, pure, fail, get, modify, logged, attempt,
  or_wrap, ◌>>=◌, ◌>>◌,
}
use grabarr.Models.Job.{Time, Job, JobFilter, no_filter}
use grabarr.Models.Job.Status.{JobStatus, status_eq}
use grabarr.Repository.Db.{time_now}
use grabarr.Repository.Jobs
use grabarr.Queue.State.{Queue, Env, on_db, try_send}

module _ (env : Env) where
  abbrev pub recoverable : JobFilter
  recoverable = record no_filter {
    status = JobStatus.queued ∷ JobStatus.pending ∷ JobStatus.running ∷ [];
    sort_by = codes "priority";
    sort_order = codes "DESC";
  }

  abbrev pub is_interrupted : Job → Bool
  is_interrupted j = status_eq j.status JobStatus.pending || status_eq j.status JobStatus.running

  -- What follows the reset of an interrupted job's row: a job whose row cannot be reset is not sent.
  abbrev pub recovered : Job → Result Unit → Action Queue Unit
  recovered j (err e) = pure tt
  recovered j (ok _) = try_send (record j { status = JobStatus.queued }) >> pure tt

  -- One round of the loop.
  abbrev pub recover : Job → Action Queue Unit
  recover j =
      if is_interrupted j
      then attempt (on_db (Jobs.update_job env.world (record j { status = JobStatus.queued })))
        >>= recovered j
      else try_send j >> pure tt

  unfoldable pub load_existing_jobs : Action Queue Unit
  load_existing_jobs = on_db (Jobs.get_jobs env.world recoverable) >>= for_each recover

  -- The two goroutines that Start launches are the scheduler and the cleanup routine. A failed
  -- load leaves `running` set.
  unfoldable pub start : Action Queue Unit
  unfolding load_existing_jobs
  start q =
      if q.running
      then (err (plain (codes "queue already running")), q)
      else if q.has_executor
      then or_wrap load_existing_jobs (codes "failed to load existing jobs")
          (record q { running = true })
      else (err (plain (codes "job executor not set")), q)

  -- Marks an interrupted job as queued; errors are logged.
  abbrev pub requeue_found : Result Job → Action Queue Unit
  requeue_found (err e) = pure tt
  requeue_found (ok j) =
      if status_eq j.status JobStatus.running
      then on_db (time_now env.world) >>= (λ now. logged (
          on_db
            (Jobs.update_job env.world (record j { status = JobStatus.queued; updated_at = now }))))
      else pure tt

  abbrev pub requeue : ℕ → Action Queue Unit
  requeue id = attempt (on_db (Jobs.get_job env.world id)) >>= requeue_found

  -- Cancels the contexts of the active jobs.
  abbrev pub cancel_all : Action Queue Unit
  cancel_all = modify (λ s. record s { canceled = map (λ e. e.1) s.active_jobs ++ s.canceled })

  -- Stop, up to its wait for the goroutines to end. Every job's context is derived from the
  -- scheduler's, which is cancelled first.
  unfoldable pub stop : Action Queue Unit
  stop q =
      if q.running
      then (for_each requeue (map (λ e. e.0) q.active_jobs) >> cancel_all)
          (record q { running = false; canceled = map (λ r. r.context) q.runs ++ q.canceled })
      else (ok tt, q)

  -- After the rows were deleted; an error ends the cleanup.
  abbrev pub cleaned : Time → Result ℕ → Action Queue Unit
  cleaned now (err e) = pure tt
  cleaned now (ok count) =
      logged (on_db (Jobs.set_config env.world (codes "last_cleanup") (env.format_time now)))

  unfoldable pub perform_cleanup : Action Queue Unit
  perform_cleanup = do
    now ← on_db (time_now env.world)
    let completed_before = now - env.jobs.cleanup_completed_after
    let failed_before = now - env.jobs.cleanup_failed_after
    count ← attempt (on_db (Jobs.cleanup_old_jobs env.world completed_before failed_before))
    cleaned now count
