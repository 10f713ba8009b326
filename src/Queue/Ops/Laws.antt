-- ===== src/Queue/Ops/Laws.antt =====
-- internal/queue/queue.go: the operations of the API on every branch. `Quiet` says that the
-- database driver reports no error.
use grabarr.Common.{
  ℕ, suc, ◌≡◌, ◌≢◌, refl, true, false, ◌==◌, none, some, List, [], ◌∷◌, ◌++◌, if◌then◌else◌, length,
  error_text, pos, eq_ℤ, ltb, Error, plain, wrapped, ok, err, codes, arith,
}
use grabarr.Models.Job.{Job, is_completed, mark_cancelled}
use grabarr.Models.Job.Status.{JobStatus, status_eq}
use grabarr.Repository.Jobs.{get_job, update_job, create_job}
use grabarr.Repository.Jobs.Laws.{
  row_of, new_columns, updated_row, find_job-id, find_job-update, IsValid,
}
use grabarr.Repository.Jobs.Operations.{create_job-row}
use grabarr.Queue.State.{Queue, Env, Notice, system_alert, capacity, find_active, delete_active}
use grabarr.Queue.Ops.{cancel_job, retry_job, enqueue, with_defaults}

abbrev pub Quiet : Env → Type 0
Quiet env = (n : ℕ) → env.world.fault n ≡ none

find_active-delete : (id : ℕ) (m : List (ℕ × ℕ)) → find_active id (delete_active id m) ≡ none
find_active-delete id [] = refl
find_active-delete id ((k, c) ∷ m) = ground (arith, find_active-delete id m)

module _ (env : Env) (quiet : Quiet env) where
  -- Where the driver reports no error, cancelling a job that is stored and not finished succeeds:
  -- its row is cancelled, no other row changes, and it is no longer listed as active. The channel
  -- is as it was.
  pub cancel_job-row :
      (id : ℕ) (q : Queue) (j : Job) (k : ℕ)
      → row_of id q.db ≡ some j
      → is_completed j ≡ false
      → let now = env.world.now q.db.readings in
        let later = env.world.now (suc q.db.readings) in
        let (r, q') = cancel_job env id q in
        (r ≡ ok tt)
        × (row_of k q'.db
            ≡ updated_row id later
                (record j { status = JobStatus.cancelled; updated_at = now })
                k
                (row_of k q.db))
        × (find_active id q'.active_jobs ≡ none)
        × (q'.job_queue ≡ q.job_queue)
  unfolding cancel_job get_job update_job
  cancel_job-row id q j k found open_job =
      let same = find_job-id id q.db.jobs {j = j} found in
      let now = env.world.now q.db.readings in
      let later = env.world.now (suc q.db.readings) in
      let first = quiet q.db.statements in
      let second = quiet (suc q.db.statements) in
      (
        ground (arith, first, second),
        ground (arith, first, second, find_job-update id later (mark_cancelled now j) k q.db.jobs),
        ground (arith, first, second, find_active-delete id q.active_jobs),
        ground (arith, first, second),
      )

  -- Where the driver reports no error, cancelling a stored job that is finished succeeds and
  -- changes no row; an entry of it among the active jobs is removed.
  cancel_job-finished :
      (id : ℕ) (q : Queue) (j : Job)
      → row_of id q.db ≡ some j
      → is_completed j ≡ true
      → let (r, q') = cancel_job env id q in
        (r ≡ ok tt) × (q'.db.jobs ≡ q.db.jobs) × (find_active id q'.active_jobs ≡ none)
  unfolding cancel_job get_job
  cancel_job-finished id q j found finished = (
    ground (arith, quiet q.db.statements),
    ground (arith, quiet q.db.statements),
    ground (arith, quiet q.db.statements, find_active-delete id q.active_jobs),
  )

  -- Where the driver reports no error, cancelling a job that is not stored is an error and
  -- changes no row, but an entry of it among the active jobs is removed all the same.
  cancel_job-missing :
      (id : ℕ) (q : Queue)
      → row_of id q.db ≡ none
      → let (r, q') = cancel_job env id q in
        (r ≢ ok tt) × (q'.db.jobs ≡ q.db.jobs) × (find_active id q'.active_jobs ≡ none)
  unfolding cancel_job get_job
  cancel_job-missing id q missing = (
    ground (arith, quiet q.db.statements),
    ground (arith, quiet q.db.statements),
    ground (arith, quiet q.db.statements, find_active-delete id q.active_jobs),
  )

  -- Where the driver reports no error, a manual retry of a job that is stored and not failed is
  -- an error and changes neither a row nor the channel.
  retry_job-refused :
      (id : ℕ) (q : Queue) (j : Job)
      → row_of id q.db ≡ some j
      → j.status ≢ JobStatus.failed
      → let (r, q') = retry_job env id q in
        (r ≢ ok tt) × (q'.db.jobs ≡ q.db.jobs) × (q'.job_queue ≡ q.job_queue)
  unfolding retry_job get_job
  retry_job-refused id q j found open_job = (
    ground (arith, quiet q.db.statements),
    ground (arith, quiet q.db.statements),
    ground (arith, quiet q.db.statements),
  )

  -- Where the driver reports no error, a manual retry of a failed job resets its row to queued,
  -- with no retries and no error message, and leaves the other rows alone. If the channel has
  -- room the job goes to its end and the call succeeds; if not, the channel is as it was and the
  -- call is an error, though the row is reset.
  pub retry_job-failed :
      (id : ℕ) (q : Queue) (j : Job) (k : ℕ)
      → row_of id q.db ≡ some j
      → j.status ≡ JobStatus.failed
      → let fresh = record j { status = JobStatus.queued; error_message = []; retries = 0 } in
        let room = ltb (length q.job_queue) capacity in
        let (r, q') = retry_job env id q in
        (row_of k q'.db ≡ updated_row id (env.world.now q.db.readings) fresh k (row_of k q.db))
        × (r ≡ (if room then ok tt else err (plain (codes "job queue is full, cannot retry job"))))
        × (q'.job_queue ≡ (if room then q.job_queue ++ fresh ∷ [] else q.job_queue))
  unfolding retry_job get_job update_job
  retry_job-failed id q j k found failed_job =
      let now = env.world.now q.db.readings in
      let fresh = record j { status = JobStatus.queued; error_message = []; retries = 0 } in
      let same = find_job-id id q.db.jobs {j = j} found in
      let first = quiet q.db.statements in
      let second = quiet (suc q.db.statements) in
      (
        ground (arith, first, second, find_job-update id now fresh k q.db.jobs),
        ground (arith, first, second),
        ground (arith, first, second),
      )

  -- On a table with unique ids below the counter and where the driver reports no error,
  -- enqueueing stores the job in a row of its own, as queued if it has no status and with the
  -- configured maximum of retries if it has none, changes no other row, and
  -- succeeds; the job goes into the channel too if that has room, and is in the database alone if
  -- not.
  pub enqueue-row :
      (j : Job) (q : Queue) (k : ℕ)
      → IsValid q.db
      → let id = suc q.db.last_job_id in
        let full = record j {
          status = if status_eq j.status JobStatus.unset then JobStatus.queued else j.status;
          max_retries = if eq_ℤ j.max_retries (pos 0) then env.jobs.max_retries else j.max_retries;
        } in
        let saved = record full {
          id = id;
          created_at = env.world.now (suc q.db.readings);
          updated_at = env.world.now (suc (suc q.db.readings));
        } in
        let (r, q') = enqueue env j q in
        (r ≡ ok saved)
        × (row_of id q.db ≡ none)
        × (row_of k q'.db ≡ (
            if k == id
            then some (new_columns id (env.world.now q.db.readings) full)
            else row_of k q.db))
        × (q'.job_queue ≡ (
            if ltb (length q.job_queue) capacity then q.job_queue ++ saved ∷ [] else q.job_queue))
  unfolding enqueue
  enqueue-row j q k v =
      let (fresh, stored, created) =
        create_job-row env.world (with_defaults env j) q.db k v (quiet q.db.statements) in
      (ground (arith, created), fresh, ground (arith, created, stored), ground (arith, created))

abbrev pub enqueue_alert : Job → Error → Notice
enqueue_alert j e =
    system_alert (codes "Job Queue Failure")
      (codes "Failed to enqueue job '"
        ++ (j.name ++ (codes "': " ++ error_text (wrapped (codes "failed to create job") e))))
      (pos 1)

-- Where storing the job fails, the call is an error, the channel and the rows are as they were,
-- and an enabled notifier is sent one alert that names the job and
-- the error. The text of the call's error is what fmt makes of a text with the driver's error as a
-- format without arguments.
pub enqueue-failed :
    (env : Env) (j : Job) (q : Queue) (e : Error)
    → env.world.fault q.db.statements ≡ some e
    → let (r, q') = enqueue env j q in
      (r
        ≡ err (
            plain (
              env.errorf (
                codes "failed to create job in database: "
                ++ error_text (wrapped (codes "failed to create job") e)))))
      × (q'.db.jobs ≡ q.db.jobs)
      × (q'.job_queue ≡ q.job_queue)
      × (q'.notices
          ≡ (if env.notifier_enabled then q.notices ++ enqueue_alert j e ∷ [] else q.notices))
unfolding enqueue create_job
enqueue-failed env j q e fails = (ground arith, ground arith, ground arith, ground arith)
