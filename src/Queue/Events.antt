-- ===== src/Queue/Events.antt =====
-- internal/queue/queue.go: the queue under any order of events. An event is a call from outside,
-- one of the scheduler's or the cleanup's, or a step of a job's goroutine: it starts, it saves a
-- progress report, or the executor returns and it ends.
pub mod Bounds
pub mod Rows
use grabarr.Common.{
  ℕ, suc, Bool, true, false, not, Option, none, some, List, [], ◌∷◌, if◌then◌else◌, select, ◌==◌,
  Error, Result, ok, err, Action, pure, get, modify, logged, ◌>>=◌, ◌>>◌,
}
use grabarr.Models.Job.{Job, JobProgress, JobAttempt}
use grabarr.Repository.Jobs.{update_job}
use grabarr.Queue.State.{Queue, Run, Env, on_db, set_job_executor, delete_active}
use grabarr.Queue.Ops.{enqueue, cancel_job, delete_job, retry_job}
use grabarr.Queue.Execute.{begin_job, finish_job}
use grabarr.Queue.Scheduler.{scheduler_receive, process_queue}
use grabarr.Queue.Lifetime.{start, stop, perform_cleanup}

pub data Event : Type 0 where
  enqueues : Job → Event
  cancels deletes retries : ℕ → Event
  sets_executor starts stops receives ticks cleans : Event
  begins : (context : ℕ) → Event
  reports : (context : ℕ) → JobProgress → Event
  finishes : (context : ℕ) → Option Error → Event

abbrev pub find_run : ℕ → List Run → Option Run
find_run context [] = none
find_run context (r ∷ rs) = if r.context == context then some r else find_run context rs

abbrev change_run : (Run → Run) → ℕ → List Run → List Run
change_run f context [] = []
change_run f context (r ∷ rs) = (if r.context == context then f r else r) ∷ change_run f context rs

-- The deferred `delete(q.activeJobs, job.ID)`, and the end of the goroutine.
abbrev pub end_run : Run → Action Queue Unit
end_run r = modify (λ q. record q {
  active_jobs = delete_active r.job.id q.active_jobs;
  runs = select (λ s. not (s.context == r.context)) q.runs;
})

module _ (env : Env) where
  abbrev begun : Run → Option (Job × JobAttempt) → Action Queue Unit
  begun r none = end_run r
  begun r (some (j, a)) = modify (λ q. record q {
    runs = change_run (λ s. record s { job = j; attempt = some a }) r.context q.runs;
  })

  begin_run : Option Run → Action Queue Unit
  begin_run none = pure tt
  begin_run (some r) = elim r.attempt [ some a ↦ pure tt | none ↦ begin_job env r.job >>= begun r ]

  abbrev with_progress : JobProgress → Job → Job
  with_progress p j = record j { progress = p }

  report_run : JobProgress → Option Run → Action Queue Unit
  report_run p none = pure tt
  report_run p (some r) = elim r.attempt [
    | none ↦ pure tt
    | some a ↦
        modify (λ q. record q {
          runs = change_run (λ s. record s { job = with_progress p s.job }) r.context q.runs;
        })
        >> logged (on_db (update_job env.world (with_progress p r.job)))
  ]

  finish_run : Option Error → Option Run → Action Queue Unit
  finish_run outcome none = pure tt
  finish_run outcome (some r) = elim r.attempt [
    | none ↦ pure tt
    | some a ↦ finish_job env outcome a r.job >> end_run r
  ]

  -- An event of a goroutine that is not there, or not so far, does nothing.
  pub handle : Event → Action Queue Unit
  unfolding begin_run report_run finish_run
  handle (enqueues j) = enqueue env j >> pure tt
  handle (cancels id) = cancel_job env id
  handle (deletes id) = delete_job env id
  handle (retries id) = retry_job env id
  handle sets_executor = set_job_executor
  handle starts = start env
  handle stops = stop env
  handle receives = scheduler_receive env
  handle ticks = process_queue env
  handle cleans = perform_cleanup env
  handle (begins context) = λ q. begin_run (find_run context q.runs) q
  handle (reports context p) = λ q. report_run p (find_run context q.runs) q
  handle (finishes context outcome) = λ q. finish_run outcome (find_run context q.runs) q

  unfoldable pub run : List Event → Queue → Queue
  unfolding handle
  run [] q = q
  run (e ∷ es) q = run es (handle e q).1
