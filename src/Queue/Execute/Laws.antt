-- ===== src/Queue/Execute/Laws.antt =====
-- internal/queue/queue.go: how executing a job ends, and what cancelling it in between does.
use grabarr.Common.{
  ℕ, suc, ◌+◌, ◌≡◌, false, ◌&&◌, Option-cases, some, [], ◌∷◌, ◌++◌, if◌then◌else◌, Error,
  error_text, arith, inl, inr,
}
use grabarr.Models.Job.{
  Job, JobAttempt, mark_started, mark_completed, archive_group, mark_failed, increment_retry,
  is_completed,
}
use grabarr.Models.Job.Status.{JobStatus}
use grabarr.Executor.Errors.{is_permanent}
use grabarr.Repository.Jobs.{update_job, create_job_attempt, update_job_attempt}
use grabarr.Repository.Jobs.Laws.{row_of, status_of, updated_row, find_job-update}
use grabarr.Queue.State.{Queue, Env, job_failed}
use grabarr.Queue.Ops.{cancel_job}
use grabarr.Queue.Ops.Laws.{Quiet, cancel_job-row}
use grabarr.Queue.Execute.{new_attempt, begin_job, finish_failed, finish_completed, finish_job}

module _ (env : Env) (quiet : Quiet env) where
  -- Where the driver reports no error, an execution that begins marks the row of its job, if
  -- there is one, as started, whatever status it had, and changes no other row; it adds one
  -- attempt, numbered one above the retries of the job.
  pub begin_job-row :
      (j : Job) (q : Queue) (k : ℕ)
      → let q' = (begin_job env j q).1 in
        (row_of k q'.db
          ≡ updated_row j.id
              (env.world.now (suc q.db.readings))
              (mark_started (env.world.now q.db.readings) j)
              k
              (row_of k q.db))
        × (q'.db.attempts
            ≡ q.db.attempts
              ++ record (new_attempt j) {
                id = suc q.db.last_attempt_id;
                started_at = env.world.now (suc (suc q.db.readings));
              }
                ∷ [])
  unfolding begin_job update_job create_job_attempt
  begin_job-row j q k =
      let now = env.world.now q.db.readings in
      let later = env.world.now (suc q.db.readings) in
      let first = quiet q.db.statements in
      let second = quiet (suc q.db.statements) in
      (
        ground (arith, first, second, find_job-update j.id later (mark_started now j) k q.db.jobs),
        ground (arith, first, second),
      )

  -- Where the driver reports no error, a permanent error fails the job's row with the error's
  -- text and its retries as they were, and an enabled notifier is told; any other error queues it
  -- again with one more retry and no error message, however many retries it has had and whatever
  -- its maximum is, and nobody is told. The other rows are left alone.
  pub finish_failed-row :
      (e : Error) (j : Job) (q : Queue) (k : ℕ)
      → let q' = (finish_failed env e j q).1 in
        let now = env.world.now q.db.readings in
        let later = env.world.now (suc q.db.readings) in
        (row_of k q'.db
          ≡ updated_row j.id later
              (if is_permanent e
                then record j {
                  status = JobStatus.failed;
                  error_message = error_text e;
                  updated_at = now;
                }
                else record j {
                  status = JobStatus.queued;
                  retries = j.retries + 1;
                  error_message = [];
                  updated_at = now;
                })
              k
              (row_of k q.db))
        × (q'.notices ≡ (
            if is_permanent e && env.notifier_enabled
            then q.notices
              ++ job_failed (record j {
                status = JobStatus.failed;
                error_message = error_text e;
                updated_at = now;
              })
                ∷ []
            else q.notices))
  unfolding finish_failed update_job
  finish_failed-row e j q k =
      let now = env.world.now q.db.readings in
      let later = env.world.now (suc q.db.readings) in
      let first = quiet q.db.statements in
      let after =
        if is_permanent e then mark_failed (error_text e) now j else increment_retry now j in
      (ground (arith, first, find_job-update j.id later after k q.db.jobs), ground (arith, first))

  -- Where the driver reports no error, a job that belongs to no archive group ends a successful
  -- execution as completed, with a progress of a hundred percent and its error message and
  -- retries as they were; no other row changes, and the channel is as it was.
  pub finish_completed-row :
      (j : Job) (q : Queue) (k : ℕ)
      → archive_group j ≡ []
      → let q' = (finish_completed env j q).1 in
        (row_of k q'.db
          ≡ updated_row j.id
              (env.world.now (suc q.db.readings))
              (mark_completed (env.world.now q.db.readings) j)
              k
              (row_of k q.db))
        × (q'.job_queue ≡ q.job_queue)
  unfolding finish_completed update_job
  finish_completed-row j q k single =
      let now = env.world.now q.db.readings in
      let later = env.world.now (suc q.db.readings) in
      let first = quiet q.db.statements in
      rw single (
        ground (arith, first, find_job-update j.id later (mark_completed now j) k q.db.jobs),
        ground (arith, first),
      )

  -- Where the driver reports no error, a stored job is queued again after an error that is not
  -- permanent, whatever its row said before.
  finish_job-retry :
      (e : Error) (a : JobAttempt) (j : Job) (q : Queue) (row : Job)
      → is_permanent e ≡ false
      → row_of j.id q.db ≡ some row
      → status_of j.id (finish_job env (some e) a j q).1.db ≡ some JobStatus.queued
  unfolding finish_job finish_failed update_job update_job_attempt
  finish_job-retry e a j q row temporary found =
      let now = env.world.now (suc q.db.readings) in
      let later = env.world.now (suc (suc q.db.readings)) in
      ground (
        arith,
        quiet q.db.statements,
        quiet (suc q.db.statements),
        find_job-update j.id later (increment_retry now j) j.id q.db.jobs,
      )

  -- A running job that is cancelled does not stay so. Where the driver reports no error and the
  -- job is stored and not finished, its row is cancelled by the call; but when the executor then
  -- returns an error that is not permanent, as the context's error is, the row is queued again.
  pub cancel_job-finish_job :
      (e : Error) (a : JobAttempt) (j : Job) (q : Queue) (row : Job)
      → is_permanent e ≡ false
      → row_of j.id q.db ≡ some row
      → is_completed row ≡ false
      → let q1 = (cancel_job env j.id q).1 in
        (status_of j.id q1.db ≡ some JobStatus.cancelled)
        × (status_of j.id (finish_job env (some e) a j q1).1.db ≡ some JobStatus.queued)
  cancel_job-finish_job e a j q row temporary found open_job =
      let q1 = (cancel_job env j.id q).1 in
      let (_, cancelled, _, _) = cancel_job-row env quiet j.id q row j.id found open_job in
      elim (Option-cases (row_of j.id q1.db)) [
        | inl gone ↦ ground (arith, gone, cancelled)
        | inr (row1, there) ↦
            (ground (arith, cancelled), finish_job-retry e a j q1 row1 temporary there)
      ]
