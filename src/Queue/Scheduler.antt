-- ===== src/Queue/Scheduler.antt =====
-- internal/queue/queue.go: the scheduler's two events, the loading of jobs from the database, and
-- the start of a job's goroutine.
pub mod Laws
pub mod Twice
pub mod Progress
use grabarr.Common.{
  ℕ, suc, Bool, true, false, ◌&&◌, Option, none, some, List, [], ◌∷◌, ◌++◌, if◌then◌else◌, length,
  ltb_ℤ, ℤ, pos, codes, Result, ok, err, Action, pure, get, modify, logged, attempt, ◌>>=◌, ◌>>◌,
}
use grabarr.Models.Job.{Job, JobFilter, no_filter}
use grabarr.Models.Job.Status.{JobStatus}
use grabarr.Repository.Jobs.{get_jobs, update_job}
use grabarr.Queue.State.{Queue, Env, on_db, try_send, delete_active}

module _ (env : Env) where
  abbrev pub can_schedule_new_job : Queue → Bool
  can_schedule_new_job q = ltb_ℤ (pos (length q.active_jobs)) env.jobs.max_concurrent

  -- Asks the gatekeeper.
  abbrev pub can_start_job_now : Job → Action Queue Bool
  can_start_job_now j q = (ok (env.gate q.asked j.file_size), record q { asked = suc q.asked })

  -- `q.canScheduleNewJob() && q.canStartJobNow(job)`
  abbrev pub can_run : Job → Action Queue Bool
  can_run j q = if can_schedule_new_job q then can_start_job_now j q else (ok false, q)

  -- A new context; the map holds one context for each id, so an older one of this id is lost.
  unfoldable pub schedule_job : Job → Action Queue Unit
  schedule_job j = modify (λ q. record q {
    last_context = suc q.last_context;
    active_jobs = (j.id, suc q.last_context) ∷ delete_active j.id q.active_jobs;
    runs = q.runs ++ record { context = suc q.last_context; job = j; attempt = none } ∷ [];
  })

  -- The scheduler's case for a job that was received, already taken from the channel.
  unfoldable pub receive_job : Job → Action Queue Unit
  unfolding schedule_job
  receive_job j = do
    go ← can_run j
    if go
        then schedule_job j
        else logged (on_db (update_job env.world (record j { status = JobStatus.pending })))
          >> try_send (record j { status = JobStatus.pending })
          >> pure tt

  -- The channel's next job; nothing happens while it is empty.
  abbrev pub take_next : List Job → Action Queue Unit
  take_next [] q = (ok tt, q)
  take_next (j ∷ rest) q = receive_job j (record q { job_queue = rest })

  unfoldable pub scheduler_receive : Action Queue Unit
  unfolding receive_job
  scheduler_receive q = take_next q.job_queue q

  -- The jobs loaded from the database, until the first that may not start.
  unfoldable pub start_loaded : List Job → Action Queue Unit
  unfolding schedule_job
  start_loaded [] = pure tt
  start_loaded (j ∷ js) = do
    go ← can_run j
    if go then schedule_job j >> start_loaded js else pure tt

  abbrev pub waiting : JobFilter
  waiting = record no_filter {
    status = JobStatus.queued ∷ JobStatus.pending ∷ [];
    sort_by = codes "priority";
    sort_order = codes "DESC";
    limit = pos 10;
  }

  -- An error of the query ends the round.
  abbrev pub start_found : Result (List Job) → Action Queue Unit
  start_found (err e) = pure tt
  start_found (ok js) = start_loaded js

  unfoldable pub load_waiting : Action Queue Unit
  unfolding start_loaded
  load_waiting = attempt (on_db (get_jobs env.world waiting)) >>= start_found

  -- A job that the gatekeeper holds back goes to the end of the channel.
  abbrev pub put_back : Job → Action Queue Unit
  put_back j = do
    sent ← try_send j
    if sent
        then pure tt
        else logged (on_db (update_job env.world (record j { status = JobStatus.pending })))

  -- What follows the gatekeeper's answer: the loop goes on, or it returns.
  abbrev pub after_gate : Job → Action Queue Unit → Bool → Action Queue Unit
  after_gate j next true = schedule_job j >> next
  after_gate j next false = put_back j

  -- The loop of processQueue, on the jobs in the channel: each round takes one, or is the last.
  unfoldable pub process_loop : List Job → Action Queue Unit
  unfolding load_waiting schedule_job
  process_loop [] q = if can_schedule_new_job q then load_waiting q else (ok tt, q)
  process_loop (j ∷ rest) q =
      let next = process_loop rest in
      if can_schedule_new_job q
      then (can_start_job_now j >>= after_gate j next) (record q { job_queue = rest })
      else (ok tt, q)

  unfoldable pub process_queue : Action Queue Unit
  unfolding process_loop
  process_queue q = process_loop q.job_queue q
