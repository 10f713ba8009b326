-- ===== src/Queue/Scheduler/Twice.antt =====
-- internal/queue/queue.go: processQueue where the channel runs empty and the waiting rows are loaded.
use grabarr.Common.{ℕ, suc, ◌≡◌, true, none, [], ◌∷◌, ◌++◌, ltb_ℤ, ℤ, pos, ok, append_assoc, arith}
use grabarr.Models.Job.{Job}
use grabarr.Repository.Jobs.{get_jobs}
use grabarr.Queue.State.{Queue, Run, Env}
use grabarr.Queue.Scheduler.{
  schedule_job, start_loaded, waiting, load_waiting, process_loop, process_queue,
}

-- A job's goroutine that has just started.
abbrev pub started : ℕ → Job → Run
started context j = record { context = context; job = j; attempt = none }

module _ (env : Env) where
  -- A job can be started twice. Where the channel holds one job, nothing is active, two jobs may run
  -- and the gatekeeper agrees, and the query for waiting jobs gives one row, of that same job, which
  -- its goroutine has not marked as running yet: a tick starts two goroutines for the job, and the
  -- map of active jobs keeps the second one's context alone.
  pub process_queue-twice :
      (q : Queue) (j row : Job)
      → q.job_queue ≡ j ∷ []
      → q.active_jobs ≡ []
      → ltb_ℤ (pos 1) env.jobs.max_concurrent ≡ true
      → ((n : ℕ) (size : ℤ) → env.gate n size ≡ true)
      → (get_jobs env.world (waiting env) q.db).0 ≡ ok (row ∷ [])
      → row.id ≡ j.id
      → let q' = (process_queue env q).1 in
        (q'.runs
          ≡ q.runs ++ started (suc q.last_context) j ∷ started (suc (suc q.last_context)) row ∷ [])
        × (q'.active_jobs ≡ (j.id, suc (suc q.last_context)) ∷ [])
  unfolding process_queue process_loop load_waiting start_loaded schedule_job
  process_queue-twice q j row channel idle room agree rows same =
      let first = started (suc q.last_context) j in
      let second = started (suc (suc q.last_context)) row in
      let joined = append_assoc q.runs (first ∷ []) (second ∷ []) in
      let one : ltb_ℤ (pos 0) env.jobs.max_concurrent ≡ true = ground (arith, room) in
      let yes = agree q.asked j.file_size in
      let again = agree (suc q.asked) row.file_size in
      (
        rw (channel, idle) (ground (arith, one, room, yes, again, rows, same, joined)),
        rw (channel, idle) (ground (arith, one, room, yes, again, rows, same)),
      )
