-- ===== src/Queue/Lifetime/Recovery.antt =====
-- internal/queue/queue.go: after the jobs were loaded at the start, none is left as interrupted.
use grabarr.Common.{
  ℕ, suc, ◌≡◌, refl, Bool, true, false, ◌||◌, ◌==◌, Bool-cases, Option, Option-cases, none, some,
  List, [], ◌∷◌, if◌then◌else◌, ok, for_each, any, select, sort_by, insert_by, ◌&&◌, ltb_ℤ, arith,
}
use grabarr.Models.Job.{Job}
use grabarr.Models.Job.Status.{JobStatus}
use grabarr.Repository.Db.{OrdersPriority}
use grabarr.Repository.Jobs.Query.{matches, before_row}
use grabarr.Repository.Jobs.{find_job, get_jobs, update_job}
use grabarr.Repository.Jobs.Laws.{row_of, status_of, status_in, IsUnique, find_job-update}
use grabarr.Queue.State.{Queue, Env}
use grabarr.Queue.Ops.Laws.{Quiet}
use grabarr.Queue.Lifetime.{recoverable, is_interrupted, recover, load_existing_jobs}

abbrev loaded : JobStatus → JobStatus
loaded JobStatus.pending = JobStatus.queued
loaded JobStatus.running = JobStatus.queued
loaded status = status

-- The status that the loading leaves in a row: queued where the job was pending or running.
abbrev pub loaded_status : Option Job → Option JobStatus
loaded_status none = none
loaded_status (some row) = some (loaded row.status)

-- A job that the loading resets, by its id.
abbrev resets : Env → ℕ → Job → Bool
resets env k j = (j.id == k) && is_interrupted env j

abbrev reset_status : Bool → Option JobStatus → Option JobStatus
reset_status b none = none
reset_status b (some s) = some (if b then JobStatus.queued else s)

module _ {A : Type 0} (test : A → Bool) where
  any-insert_by :
      (before : A → A → Bool) (x : A) (xs : List A)
      → any test (insert_by before x xs) ≡ test x || any test xs
  any-insert_by before x [] = refl
  any-insert_by before x (y ∷ ys) = ground (arith, any-insert_by before x ys)

  any-sort_by : (before : A → A → Bool) (xs : List A) → any test (sort_by before xs) ≡ any test xs
  any-sort_by before [] = refl
  any-sort_by before (x ∷ xs) =
      ground (arith, any-insert_by before x (sort_by before xs), any-sort_by before xs)

module _ (env : Env) where
  resets-matches : (k : ℕ) (j : Job) → resets env k j ≡ true → matches (recoverable env) j ≡ true
  resets-matches k j h = ground arith

  any-select-resets :
      (k : ℕ) (js : List Job)
      → any (resets env k) (select (matches (recoverable env)) js) ≡ any (resets env k) js
  any-select-resets k [] = refl
  any-select-resets k (j ∷ js) =
      ground (arith, resets-matches k j, any-select-resets k js, Bool-cases (resets env k j))

  interrupted : Option Job → Bool
  interrupted none = false
  interrupted (some row) = is_interrupted env row

  -- A row is loaded to be reset exactly if it is interrupted.
  any-resets :
      (k : ℕ) (js : List Job) → IsUnique js → any (resets env k) js ≡ interrupted (find_job k js)
  unfolding interrupted
  any-resets k [] u = refl
  any-resets k (j ∷ js) (fresh, u) = ground (arith, any-resets k js u)

  reset_status-row :
      (row : Option Job) → reset_status (interrupted row) (status_in row) ≡ loaded_status row
  unfolding interrupted
  reset_status-row none = refl
  reset_status-row (some row) = ground (arith, row.status)

module _ (env : Env) (quiet : Quiet env) where
  -- A recovered job that was interrupted has a queued row, and rows of other jobs keep theirs.
  recover-status :
      (j : Job) (q : Queue) (k : ℕ)
      → status_of k (recover env j q).1.db ≡ reset_status (resets env k j) (status_of k q.db)
  unfolding update_job
  recover-status j q k = ground (
    arith,
    quiet q.db.statements,
    find_job-update j.id (env.world.now q.db.readings) (record j { status = JobStatus.queued }) k
        q.db.jobs,
    Option-cases (row_of k q.db),
  )

  recover-ok : (j : Job) (q : Queue) → (recover env j q).0 ≡ ok tt
  unfolding update_job
  recover-ok j q = ground (arith, quiet q.db.statements)

  for_each-recover :
      (js : List Job) (q : Queue) (k : ℕ)
      → status_of k (for_each (recover env) js q).1.db
        ≡ reset_status (any (resets env k) js) (status_of k q.db)
  for_each-recover [] q k = ground (arith, Option-cases (status_of k q.db))
  for_each-recover (j ∷ js) q k =
      let q1 = (recover env j q).1 in
      ground (
        arith,
        recover-ok j q,
        recover-status j q k,
        for_each-recover js q1 k,
        Option-cases (status_of k q.db),
      )

  -- Where ids are unique, the driver reports no error and the column `priority` orders rows,
  -- loading the jobs at the start queues every job that was pending or running when the program
  -- ended, and leaves the status of every other row as it was.
  pub load_existing_jobs-status :
      (q : Queue) (k : ℕ)
      → IsUnique q.db.jobs
      → OrdersPriority env.world
      → status_of k (load_existing_jobs env q).1.db ≡ loaded_status (row_of k q.db)
  unfolding load_existing_jobs get_jobs
  load_existing_jobs-status q k u priority =
      let found = select (matches (recoverable env)) q.db.jobs in
      let before = before_row (λ (a b : Job). ltb_ℤ b.priority a.priority) in
      let q1 = record q { db = record q.db { statements = suc q.db.statements } } in
      ground (
        arith,
        quiet q.db.statements,
        priority,
        for_each-recover (sort_by before found) q1 k,
        any-sort_by (resets env k) before found,
        any-select-resets env k q.db.jobs,
        any-resets env k q.db.jobs u,
        reset_status-row env (row_of k q.db),
      )
