-- ===== src/Queue/Events/Bounds.antt =====
-- internal/queue/queue.go: the channel never holds more than its buffer, and the map of active jobs
-- never more than the configured number.
use grabarr.Common.{
  ◌++◌, ℕ, suc, ◌≡◌, refl, inl, inr, codes, map, for_each, Bool-cases, pure, Bool, true, false, not,
  ◌==◌, Option, Option-cases, none, some, List, [], ◌∷◌, length-append, ℤ, ◌≤ℤ◌, Error, Result, ok,
  err, Action, Keeps, Keeps-bind, Keeps-then, Keeps-or_wrap, Keeps-for_each, arith,
}
use grabarr.Models.Job.{Job, JobAttempt, JobProgress}
use grabarr.Repository.Jobs.{get_jobs}
use grabarr.Queue.State.{Queue, Run, Env, on_db}
use grabarr.Queue.Ops.{enqueue}
use grabarr.Queue.Execute.{begin_job, finish_job}
use grabarr.Queue.Scheduler.{
  can_schedule_new_job, schedule_job, receive_job, scheduler_receive, start_loaded, load_waiting,
  start_found, waiting, after_gate, put_back, process_loop, process_queue,
}
use grabarr.Queue.Lifetime.{
  recover, recoverable, requeue, load_existing_jobs, start, stop, perform_cleanup,
}
use grabarr.Queue.Events.{
  Event, find_run, end_run, begun, begin_run, report_run, finish_run, handle, run,
}
use grabarr.Queue.Bounds.{
  IsBounded, length-select-le, on_db-IsBounded, cancel_job-IsBounded, delete_job-IsBounded,
  retry_job-IsBounded, enqueue-IsBounded, begin_job-IsBounded, IsBounded-db, finish_job-IsBounded,
}

module _ (env : Env) (most : ℤ) (low : env.jobs.max_concurrent ≤ℤ most) where
  -- A job is scheduled only while there is room among the active ones.
  schedule_job-IsBounded :
      (j : Job) (q : Queue)
      → can_schedule_new_job env q ≡ true
      → IsBounded most q
      → IsBounded most (schedule_job env j q).1
  unfolding schedule_job
  schedule_job-IsBounded j q room b =
      ground (arith, length-select-le (λ e. not (e.0 == j.id)) q.active_jobs)

  receive_job-IsBounded : (j : Job) → Keeps (IsBounded most) (receive_job env j)
  unfolding receive_job
  receive_job-IsBounded j q b = grind (arith, length-append, length-select-le)

  scheduler_receive-IsBounded : Keeps (IsBounded most) (scheduler_receive env)
  unfolding scheduler_receive
  scheduler_receive-IsBounded q b = grind (arith, receive_job-IsBounded)

  start_loaded-IsBounded : (js : List Job) → Keeps (IsBounded most) (start_loaded env js)
  unfolding start_loaded
  start_loaded-IsBounded [] q b = b
  start_loaded-IsBounded (j ∷ js) q b =
      grind (arith, schedule_job-IsBounded, start_loaded-IsBounded js)

  load_waiting-IsBounded : Keeps (IsBounded most) (load_waiting env)
  unfolding load_waiting
  load_waiting-IsBounded q b =
      found (get_jobs env.world (waiting env) q.db).0 _ (IsBounded-db env most q _ b)
    where
      found :
          (r : Result (List Job)) (t : Queue)
          → IsBounded most t
          → IsBounded most (start_found env r t).1
      found (ok js) t c = start_loaded-IsBounded js t c
      found (err e) t c = c

  put_back-IsBounded : (j : Job) → Keeps (IsBounded most) (put_back env j)
  put_back-IsBounded j q b = ground (arith, length-append q.job_queue (j ∷ []))

  after_gate-IsBounded :
      (j : Job) (next : Action Queue Unit) (go : Bool) (q : Queue)
      → can_schedule_new_job env q ≡ true
      → IsBounded most q
      → ((t : Queue) → t.job_queue ≡ q.job_queue → IsBounded most t → IsBounded most (next t).1)
      → IsBounded most (after_gate env j next go q).1
  unfolding schedule_job
  after_gate-IsBounded j next true q room b h = h _ refl (schedule_job-IsBounded j q room b)
  after_gate-IsBounded j next false q room b h = put_back-IsBounded j q b

  -- The loop is on the channel of the state that it is given.
  process_loop-IsBounded :
      (js : List Job) (q : Queue)
      → q.job_queue ≡ js
      → IsBounded most q
      → IsBounded most (process_loop env js q).1
  unfolding process_loop
  process_loop-IsBounded [] q same b = ground (arith, load_waiting-IsBounded q b)
  process_loop-IsBounded (j ∷ js) q same b = elim (Bool-cases (can_schedule_new_job env q)) [
    | inl room ↦
        rw (room, process_loop)
          (after_gate-IsBounded j (process_loop env js) (env.gate q.asked j.file_size)
            (record q { job_queue = js; asked = suc q.asked }) room
            (record { capped = ground (arith); few = b.few })
            (λ t kept. process_loop-IsBounded js t kept))
    | inr full ↦ rw (full, process_loop) b
  ]

  process_queue-IsBounded : Keeps (IsBounded most) (process_queue env)
  unfolding process_queue
  process_queue-IsBounded q b = process_loop-IsBounded q.job_queue q refl b

  recover-IsBounded : (j : Job) → Keeps (IsBounded most) (recover env j)
  recover-IsBounded j q b = grind (arith, length-append)

  load_existing_jobs-IsBounded : Keeps (IsBounded most) (load_existing_jobs env)
  unfolding load_existing_jobs
  load_existing_jobs-IsBounded =
      Keeps-bind (IsBounded most) (on_db (get_jobs env.world (recoverable env)))
        (for_each (recover env)) (on_db-IsBounded env most (get_jobs env.world (recoverable env)))
        (λ js. Keeps-for_each (IsBounded most) (recover env) js recover-IsBounded)

  pub start-IsBounded : Keeps (IsBounded most) (start env)
  unfolding start
  start-IsBounded q b =
      let b' : IsBounded most (record q { running = true }) = record {
        capped = b.capped;
        few = b.few;
      } in
      ground (
        arith,
        Keeps-or_wrap (IsBounded most) (load_existing_jobs env)
            (codes "failed to load existing jobs") load_existing_jobs-IsBounded
            (record q { running = true }) b',
      )

  requeue-IsBounded : (id : ℕ) → Keeps (IsBounded most) (requeue env id)
  requeue-IsBounded id q b = ground arith

  pub stop-IsBounded : Keeps (IsBounded most) (stop env)
  unfolding stop
  stop-IsBounded q b =
      let stopping = record q {
        running = false;
        canceled = map (λ r. r.context) q.runs ++ q.canceled;
      } in
      let b' : IsBounded most stopping = record { capped = b.capped; few = b.few } in
      ground (
        arith,
        Keeps-for_each (IsBounded most) (requeue env) (map (λ e. e.0) q.active_jobs)
            requeue-IsBounded stopping b',
      )

  perform_cleanup-IsBounded : Keeps (IsBounded most) (perform_cleanup env)
  unfolding perform_cleanup
  perform_cleanup-IsBounded q b = ground arith

  end_run-IsBounded : (r : Run) → Keeps (IsBounded most) (end_run r)
  end_run-IsBounded r q b =
      ground (arith, length-select-le (λ e. not (e.0 == r.job.id)) q.active_jobs)

  begun-IsBounded :
      (r : Run) (m : Option (Job × JobAttempt)) → Keeps (IsBounded most) (begun env r m)
  begun-IsBounded r none q b = end_run-IsBounded r q b
  begun-IsBounded r (some (j, a)) q b = record { capped = b.capped; few = b.few }

  begin_run-IsBounded : (m : Option Run) → Keeps (IsBounded most) (begin_run env m)
  unfolding begin_run
  begin_run-IsBounded none q b = b
  begin_run-IsBounded (some r) q b = elim (Option-cases r.attempt) [
    | inl e ↦
        rw (e, begin_run)
          (Keeps-bind (IsBounded most) (begin_job env r.job) (begun env r)
            (begin_job-IsBounded env most r.job) (begun-IsBounded r) q b)
    | inr (a, e) ↦ rw (e, begin_run) b
  ]

  report_run-IsBounded :
      (p : JobProgress) (m : Option Run) → Keeps (IsBounded most) (report_run env p m)
  unfolding report_run
  report_run-IsBounded p none q b = b
  report_run-IsBounded p (some r) q b = ground arith

  finish_run-IsBounded :
      (outcome : Option Error) (m : Option Run) → Keeps (IsBounded most) (finish_run env outcome m)
  unfolding finish_run
  finish_run-IsBounded outcome none q b = b
  finish_run-IsBounded outcome (some r) q b = elim (Option-cases r.attempt) [
    | inl e ↦ rw (e, finish_run) b
    | inr (a, e) ↦
        rw (e, finish_run)
          (Keeps-then (IsBounded most) (finish_job env outcome a r.job) (end_run r)
            (finish_job-IsBounded env most outcome a r.job) (end_run-IsBounded r) q b)
  ]

  pub handle-IsBounded : (e : Event) → Keeps (IsBounded most) (handle env e)
  unfolding handle
  handle-IsBounded (Event.enqueues j) q b =
      Keeps-then (IsBounded most) (enqueue env j) (pure tt) (enqueue-IsBounded env most j)
        (λ t c. c) q b
  handle-IsBounded (Event.cancels id) q b = cancel_job-IsBounded env most id q b
  handle-IsBounded (Event.deletes id) q b = delete_job-IsBounded env most id q b
  handle-IsBounded (Event.retries id) q b = retry_job-IsBounded env most id q b
  handle-IsBounded Event.sets_executor q b = record { capped = b.capped; few = b.few }
  handle-IsBounded Event.starts q b = start-IsBounded q b
  handle-IsBounded Event.stops q b = stop-IsBounded q b
  handle-IsBounded Event.receives q b = scheduler_receive-IsBounded q b
  handle-IsBounded Event.ticks q b = process_queue-IsBounded q b
  handle-IsBounded Event.cleans q b = perform_cleanup-IsBounded q b
  handle-IsBounded (Event.begins context) q b = begin_run-IsBounded (find_run context q.runs) q b
  handle-IsBounded (Event.reports context p) q b =
      report_run-IsBounded p (find_run context q.runs) q b
  handle-IsBounded (Event.finishes context outcome) q b =
      finish_run-IsBounded outcome (find_run context q.runs) q b

  pub run-IsBounded :
      (es : List Event) (q : Queue) → IsBounded most q → IsBounded most (run env es q)
  unfolding run
  run-IsBounded [] q b = b
  run-IsBounded (e ∷ es) q b = run-IsBounded es (handle env e q).1 (handle-IsBounded e q b)
