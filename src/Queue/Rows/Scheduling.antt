-- ===== src/Queue/Rows/Scheduling.antt =====
-- internal/queue/queue.go: the table of jobs under the scheduler, Start, Stop and the cleanup.
use grabarr.Common.{
  ℕ, ◌≡◌, refl, Bool, true, false, pure, map, for_each, List, [], ◌∷◌, ◌++◌, if◌then◌else◌, Text,
  codes, Result, ok, err, Action, modify, ◌>>◌, Preserves, preserves_rules, Preserves-bind,
  Preserves-if, Preserves-pure, Preserves-or_wrap, Preserves-for_each, arith,
}
use grabarr.Models.Job.{Time, Job}
use grabarr.Repository.Jobs
use grabarr.Repository.Jobs.Laws.{IsValid}
use grabarr.Repository.Jobs.Operations.{cleanup_old_jobs-IsValid}
use grabarr.Queue.State.{Queue, Env}
use grabarr.Queue.Scheduler.{
  can_schedule_new_job, can_run, schedule_job, receive_job, take_next, scheduler_receive,
  start_loaded, start_found, load_waiting, put_back, after_gate, process_loop, process_queue,
  can_start_job_now,
}
use grabarr.Queue.Lifetime.{
  recovered, recover, requeue_found, cancel_all, cleaned, load_existing_jobs, start, requeue, stop,
  perform_cleanup,
}
use grabarr.Queue.Rows.{HasValidRows, rows_rules, exec-IsValid, same_jobs-keeps}

-- A change that leaves the database alone.
pub same_db-HasValidRows :
    (f : Queue → Queue) → ((q : Queue) → (f q).db ≡ q.db) → Preserves HasValidRows (modify f)
same_db-HasValidRows f same = record { at = λ q v. record { rows = rw (same q) v.rows } }

either :
    {A : Type 0} (b : Bool) (x y : Result A × Queue)
    → HasValidRows x.1
    → HasValidRows y.1
    → HasValidRows (if b then x else y).1
either true x y v w = v
either false x y v w = w

module _ (env : Env) where
  config-keeps : (key value : Text) → Preserves IsValid (Jobs.set_config env.world key value)
  unfolding Jobs.set_config
  config-keeps key value = search (exec-IsValid, same_jobs-keeps)

  old-keeps : (c f : Time) → Preserves IsValid (Jobs.cleanup_old_jobs env.world c f)
  old-keeps c f = record { at = cleanup_old_jobs-IsValid env.world c f }

  can_run-HasValidRows : (j : Job) → Preserves HasValidRows (can_run env j)
  can_run-HasValidRows j = record { at = λ q v. ground arith }

  gate-HasValidRows : (j : Job) → Preserves HasValidRows (can_start_job_now env j)
  gate-HasValidRows j = record { at = λ q v. record { rows = v.rows } }

  schedule_job-HasValidRows : (j : Job) → Preserves HasValidRows (schedule_job env j)
  unfolding schedule_job
  schedule_job-HasValidRows j = search (rows_rules, same_db-HasValidRows)

  ruleset step_rules = (
    rows_rules, same_db-HasValidRows, can_run-HasValidRows, gate-HasValidRows,
    schedule_job-HasValidRows,
  )

  receive_job-HasValidRows : (j : Job) → Preserves HasValidRows (receive_job env j)
  unfolding receive_job
  receive_job-HasValidRows j = search step_rules depth 12

  take_next-HasValidRows : (js : List Job) → Preserves HasValidRows (take_next env js)
  take_next-HasValidRows [] = record { at = λ q v. v }
  take_next-HasValidRows (j ∷ rest) = record {
    at = λ q v.
        (receive_job-HasValidRows j).at (record q { job_queue = rest }) (record { rows = v.rows });
  }

  pub scheduler_receive-HasValidRows : Preserves HasValidRows (scheduler_receive env)
  unfolding scheduler_receive
  scheduler_receive-HasValidRows = record {
    at = λ q v. (take_next-HasValidRows q.job_queue).at q v;
  }

  start_loaded-HasValidRows : (js : List Job) → Preserves HasValidRows (start_loaded env js)
  unfolding start_loaded
  start_loaded-HasValidRows [] = search preserves_rules
  start_loaded-HasValidRows (j ∷ js) =
      let rest = start_loaded env js in
      let on =
        Preserves-bind (schedule_job env j) (λ _. rest) (schedule_job-HasValidRows j)
          (λ _. start_loaded-HasValidRows js) in
      Preserves-bind (can_run env j) (λ go. if go then schedule_job env j >> rest else pure tt)
        (can_run-HasValidRows j) (λ go. Preserves-if go _ _ on (Preserves-pure tt))

  start_found-HasValidRows : (r : Result (List Job)) → Preserves HasValidRows (start_found env r)
  start_found-HasValidRows (ok js) = start_loaded-HasValidRows js
  start_found-HasValidRows (err e) = search preserves_rules

  load_waiting-HasValidRows : Preserves HasValidRows (load_waiting env)
  unfolding load_waiting
  load_waiting-HasValidRows = search (step_rules, start_found-HasValidRows) depth 12

  put_back-HasValidRows : (j : Job) → Preserves HasValidRows (put_back env j)
  put_back-HasValidRows j = search step_rules depth 12

  after_gate-HasValidRows :
      (j : Job) (next : Action Queue Unit) (go : Bool)
      → Preserves HasValidRows next
      → Preserves HasValidRows (after_gate env j next go)
  after_gate-HasValidRows j next true k = search step_rules depth 12
  after_gate-HasValidRows j next false k = put_back-HasValidRows j

  process_loop-HasValidRows : (js : List Job) → Preserves HasValidRows (process_loop env js)
  unfolding process_loop
  process_loop-HasValidRows [] = record {
    at = λ q v. either (can_schedule_new_job env q) _ _ (load_waiting-HasValidRows.at q v) v;
  }
  process_loop-HasValidRows (j ∷ js) =
      let next = process_loop env js in
      let started =
        Preserves-bind (can_start_job_now env j) (after_gate env j next) (gate-HasValidRows j)
          (λ go. after_gate-HasValidRows j next go (process_loop-HasValidRows js)) in
      record {
        at = λ q v.
            either (can_schedule_new_job env q) _ _
              (started.at (record q { job_queue = js }) (record { rows = v.rows })) v;
      }

  pub process_queue-HasValidRows : Preserves HasValidRows (process_queue env)
  unfolding process_queue
  process_queue-HasValidRows = record { at = λ q v. (process_loop-HasValidRows q.job_queue).at q v }

  reset-HasValidRows :
      (j : Job) (r : Result (Unit {0})) → Preserves HasValidRows (recovered env j r)
  reset-HasValidRows j (ok u) = search rows_rules depth 12
  reset-HasValidRows j (err e) = search preserves_rules

  recover-HasValidRows : (j : Job) → Preserves HasValidRows (recover env j)
  recover-HasValidRows j = search (rows_rules, reset-HasValidRows) depth 12

  load_existing_jobs-HasValidRows : Preserves HasValidRows (load_existing_jobs env)
  unfolding load_existing_jobs
  load_existing_jobs-HasValidRows = search (rows_rules, recover-HasValidRows) depth 12

  pub start-HasValidRows : Preserves HasValidRows (start env)
  unfolding start
  start-HasValidRows = record {
    at = λ q v. either q.running _ _ v (
        either q.has_executor _ _
          ((Preserves-or_wrap (load_existing_jobs env) (codes "failed to load existing jobs")
              load_existing_jobs-HasValidRows).at
            (record q { running = true }) (record { rows = v.rows }))
          v);
  }

  requeue_found-HasValidRows : (r : Result Job) → Preserves HasValidRows (requeue_found env r)
  requeue_found-HasValidRows (ok j) = search rows_rules depth 12
  requeue_found-HasValidRows (err e) = search preserves_rules

  requeue-HasValidRows : (id : ℕ) → Preserves HasValidRows (requeue env id)
  requeue-HasValidRows id = search (rows_rules, requeue_found-HasValidRows) depth 12

  pub stop-HasValidRows : Preserves HasValidRows (stop env)
  unfolding stop
  stop-HasValidRows = record { at = λ q v. either q.running _ _ (stopped q v) v }
    where
      stopped :
          (q : Queue)
          → HasValidRows q
          → HasValidRows
              ((for_each (requeue env) (map (λ e. e.0) q.active_jobs) >> cancel_all env) (record q {
                running = false;
                canceled = map (λ r. r.context) q.runs ++ q.canceled;
              })).1
      stopped q v =
          (Preserves-bind (for_each (requeue env) (map (λ e. e.0) q.active_jobs))
              (λ _. cancel_all env) (Preserves-for_each (requeue env) _ requeue-HasValidRows)
              (λ _. same_db-HasValidRows _ (λ s. refl))).at
            _ (record { rows = v.rows })

  cleaned-HasValidRows : (now : Time) (r : Result ℕ) → Preserves HasValidRows (cleaned env now r)
  cleaned-HasValidRows now (ok n) = search (rows_rules, config-keeps) depth 12
  cleaned-HasValidRows now (err e) = search preserves_rules

  pub perform_cleanup-HasValidRows : Preserves HasValidRows (perform_cleanup env)
  unfolding perform_cleanup
  perform_cleanup-HasValidRows = search (rows_rules, old-keeps, cleaned-HasValidRows) depth 12
