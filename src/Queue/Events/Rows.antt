-- ===== src/Queue/Events/Rows.antt =====
-- internal/queue/queue.go: the table of jobs under any order of events.
use grabarr.Common.{
  pure, Option-cases, Option, none, some, List, [], ◌∷◌, Error, Preserves, preserves_rules,
  Preserves-bind, Preserves-pure, inl, inr,
}
use grabarr.Models.Job.{Job, JobAttempt, JobProgress}
use grabarr.Repository.Db.{Db}
use grabarr.Repository.Jobs.Laws.{IsValid}
use grabarr.Queue.State.{Queue, Run, Env, new_queue}
use grabarr.Queue.Ops.{enqueue}
use grabarr.Queue.Execute.{begin_job, finish_job}
use grabarr.Queue.Events.{
  Event, find_run, end_run, begun, begin_run, report_run, finish_run, handle, run,
}
use grabarr.Queue.Rows.{
  HasValidRows, rows_rules, begin_job-HasValidRows, finish_job-HasValidRows, enqueue-HasValidRows,
  cancel_job-HasValidRows, delete_job-HasValidRows, retry_job-HasValidRows,
}
use grabarr.Queue.Rows.Scheduling.{
  same_db-HasValidRows, scheduler_receive-HasValidRows, process_queue-HasValidRows,
  start-HasValidRows, stop-HasValidRows, perform_cleanup-HasValidRows,
}

module _ (env : Env) where
  end_run-HasValidRows : (r : Run) → Preserves HasValidRows (end_run r)
  end_run-HasValidRows r = search same_db-HasValidRows

  begun-HasValidRows :
      (r : Run) (m : Option (Job × JobAttempt)) → Preserves HasValidRows (begun env r m)
  begun-HasValidRows r none = end_run-HasValidRows r
  begun-HasValidRows r (some (j, a)) = search same_db-HasValidRows

  begin_run-HasValidRows : (m : Option Run) → Preserves HasValidRows (begin_run env m)
  unfolding begin_run
  begin_run-HasValidRows none = search preserves_rules
  begin_run-HasValidRows (some r) = elim (Option-cases r.attempt) [
    | inl e ↦
        rw (e, begin_run)
          (Preserves-bind (begin_job env r.job) (begun env r) (begin_job-HasValidRows env r.job)
            (begun-HasValidRows r))
    | inr (a, e) ↦ rw (e, begin_run) (Preserves-pure tt)
  ]

  report_run-HasValidRows :
      (p : JobProgress) (m : Option Run) → Preserves HasValidRows (report_run env p m)
  unfolding report_run
  report_run-HasValidRows p none = search preserves_rules
  report_run-HasValidRows p (some r) = elim (Option-cases r.attempt) [
    | inl e ↦ rw (e, report_run) (Preserves-pure tt)
    | inr (a, e) ↦ rw (e, report_run) (search (rows_rules, same_db-HasValidRows) depth 12)
  ]

  finish_run-HasValidRows :
      (outcome : Option Error) (m : Option Run) → Preserves HasValidRows (finish_run env outcome m)
  unfolding finish_run
  finish_run-HasValidRows outcome none = search preserves_rules
  finish_run-HasValidRows outcome (some r) = elim (Option-cases r.attempt) [
    | inl e ↦ rw (e, finish_run) (Preserves-pure tt)
    | inr (a, e) ↦
        rw (e, finish_run)
          (Preserves-bind (finish_job env outcome a r.job) (λ _. end_run r)
            (finish_job-HasValidRows env outcome a r.job) (λ _. end_run-HasValidRows r))
  ]

  pub handle-HasValidRows : (e : Event) → Preserves HasValidRows (handle env e)
  unfolding handle
  handle-HasValidRows (Event.enqueues j) =
      Preserves-bind (enqueue env j) (λ _. pure tt) (enqueue-HasValidRows env j)
        (λ _. Preserves-pure tt)
  handle-HasValidRows (Event.cancels id) = cancel_job-HasValidRows env id
  handle-HasValidRows (Event.deletes id) = delete_job-HasValidRows env id
  handle-HasValidRows (Event.retries id) = retry_job-HasValidRows env id
  handle-HasValidRows Event.sets_executor = search same_db-HasValidRows
  handle-HasValidRows Event.starts = start-HasValidRows env
  handle-HasValidRows Event.stops = stop-HasValidRows env
  handle-HasValidRows Event.receives = scheduler_receive-HasValidRows env
  handle-HasValidRows Event.ticks = process_queue-HasValidRows env
  handle-HasValidRows Event.cleans = perform_cleanup-HasValidRows env
  handle-HasValidRows (Event.begins context) = record {
    at = λ q v. (begin_run-HasValidRows (find_run context q.runs)).at q v;
  }
  handle-HasValidRows (Event.reports context p) = record {
    at = λ q v. (report_run-HasValidRows p (find_run context q.runs)).at q v;
  }
  handle-HasValidRows (Event.finishes context outcome) = record {
    at = λ q v. (finish_run-HasValidRows outcome (find_run context q.runs)).at q v;
  }

  run-HasValidRows : (es : List Event) (q : Queue) → HasValidRows q → HasValidRows (run env es q)
  unfolding run
  run-HasValidRows [] q v = v
  run-HasValidRows (e ∷ es) q v =
      run-HasValidRows es (handle env e q).1 ((handle-HasValidRows e).at q v)

  -- Over any events, whatever statements fail, and from a database in which no two jobs share an id
  -- and none has an id above the counter, the database of the queue is like that too.
  run-IsValid : (es : List Event) (db : Db) → IsValid db → IsValid (run env es (new_queue db)).db
  run-IsValid es db v = (run-HasValidRows es (new_queue db) (record { rows = v })).rows
