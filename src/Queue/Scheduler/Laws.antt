-- ===== src/Queue/Scheduler/Laws.antt =====
-- internal/queue/queue.go: what the scheduler does with a job from the channel.
use grabarr.Common.{
  ℕ, suc, ◌≤◌, ◌≡◌, true, false, none, some, List, [], ◌∷◌, ◌++◌, length, ap, ◌∙◌, arith,
}
use grabarr.Models.Job.{Job}
use grabarr.Models.Job.Status.{JobStatus}
use grabarr.Models.Job.{is_completed}
use grabarr.Repository.Jobs.{update_job}
use grabarr.Repository.Jobs.Laws.{row_of, status_of, updated_row, find_job-update}
use grabarr.Queue.State.{Queue, Env, capacity, find_active}
use grabarr.Queue.Ops.{cancel_job}
use grabarr.Queue.Ops.Laws.{Quiet, cancel_job-row}
use grabarr.Queue.Execute.{begin_job}
use grabarr.Queue.Execute.Laws.{begin_job-row}
use grabarr.Queue.Scheduler.{can_schedule_new_job, receive_job, scheduler_receive}

module _ (env : Env) where
  -- A job that may not start now, since the limit is reached or the gatekeeper refuses, goes to
  -- the end of a channel that is within its buffer as pending and is not started; where the
  -- driver reports no error its row is pending too, and no other row changes.
  pub scheduler_receive-blocked :
      (q : Queue) (j : Job) (rest : List Job) (k : ℕ)
      → q.job_queue ≡ j ∷ rest
      → length q.job_queue ≤ capacity
      → (can_schedule_new_job env q ≡ true → env.gate q.asked j.file_size ≡ false)
      → env.world.fault q.db.statements ≡ none
      → let q' = (scheduler_receive env q).1 in
        (q'.job_queue ≡ rest ++ record j { status = JobStatus.pending } ∷ [])
        × (q'.runs ≡ q.runs)
        × (q'.active_jobs ≡ q.active_jobs)
        × (row_of k q'.db
            ≡ updated_row j.id
                (env.world.now q.db.readings)
                (record j { status = JobStatus.pending })
                k
                (row_of k q.db))
  unfolding scheduler_receive receive_job update_job
  scheduler_receive-blocked q j rest k e fits blocked quiet = (
    ground arith,
    ground arith,
    ground arith,
    ground (
      arith,
      find_job-update j.id (env.world.now q.db.readings) (record j { status = JobStatus.pending }) k
          q.db.jobs,
    ),
  )

  -- A job that may start now is taken from the channel and started in a new context, whatever its
  -- row in the database says, and it is active from then on.
  scheduler_receive-started :
      (q : Queue) (j : Job) (rest : List Job)
      → q.job_queue ≡ j ∷ rest
      → can_schedule_new_job env q ≡ true
      → env.gate q.asked j.file_size ≡ true
      → let q' = (scheduler_receive env q).1 in
        (q'.job_queue ≡ rest)
        × (q'.runs
            ≡ q.runs ++ record { context = suc q.last_context; job = j; attempt = none } ∷ [])
        × (find_active j.id q'.active_jobs ≡ some (suc q.last_context))
        × (q'.db ≡ q.db)
  unfolding scheduler_receive
  scheduler_receive-started q j rest e room open_gate =
      (ground arith, ground arith, ground arith, ground arith)

  -- Cancelling a job that is next in the channel does not keep it from running. Where the driver
  -- reports no error and the job is stored and not finished, the call cancels its row; if there
  -- is then room and the gatekeeper agrees, the scheduler still starts the job, and its goroutine
  -- marks the row as running again.
  pub cancel_job-scheduler_receive :
      Quiet env
      → (q : Queue) (j : Job) (rest : List Job) (row : Job) → q.job_queue ≡ j ∷ rest
      → row_of j.id q.db ≡ some row
      → is_completed row ≡ false
      → can_schedule_new_job env (cancel_job env j.id q).1 ≡ true
      → env.gate (cancel_job env j.id q).1.asked j.file_size ≡ true
      → let q1 = (cancel_job env j.id q).1 in
        let q2 = (scheduler_receive env q1).1 in
        (status_of j.id q1.db ≡ some JobStatus.cancelled)
        × (q2.runs
            ≡ q1.runs ++ record { context = suc q1.last_context; job = j; attempt = none } ∷ [])
        × (status_of j.id (begin_job env j q2).1.db ≡ some JobStatus.running)
  cancel_job-scheduler_receive quiet q j rest row waits found open_job room open_gate =
      let q1 = (cancel_job env j.id q).1 in
      let q2 = (scheduler_receive env q1).1 in
      let (_, cancelled, _, same) = cancel_job-row env quiet j.id q row j.id found open_job in
      let (_, started, _, kept) =
        scheduler_receive-started q1 j rest (same ∙ waits) room open_gate in
      let (marked, _) = begin_job-row env quiet j q2 j.id in
      (
        ground (arith, cancelled),
        started,
        ground (arith, cancelled, marked, ap (λ db. row_of j.id db) kept),
      )
