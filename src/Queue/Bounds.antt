-- ===== src/Queue/Bounds.antt =====
-- internal/queue/queue.go: the operations and the ends of an execution keep the channel and the map
-- of active jobs within their bounds.
use grabarr.Common.{
  ℕ, ◌≤◌, pure, logged, Bool, not, ◌==◌, Option, none, some, List, [], ◌∷◌, length, length-append,
  select, pos, ℤ, ◌≤ℤ◌, Text, Error, Action, ◌>>=◌, Keeps, Keeps-bind, Keeps-then, Keeps-if, arith,
}
use grabarr.Models.Job.{Job, JobAttempt, archive_group}
use grabarr.Repository.Db.{Db}
use grabarr.Repository.Jobs.{update_job_attempt}
use grabarr.Queue.State.{Queue, Env, Notice, capacity, on_db, try_send, notify, cancel_active}
use grabarr.Queue.Ops.{enqueue, cancel_job, delete_job, retry_job}
use grabarr.Queue.Execute.{
  begin_job, check_group, finish_completed, ended, finish_status, finish_failed, finish_job,
}
use grabarr.Queue.Archives.{check_archive_group_complete}

-- The channel is within its buffer, and the map of active jobs within a bound.
pub record IsBounded (m : ℤ) (q : Queue) : Type 0 where
  pub capped : length q.job_queue ≤ capacity
  pub few : pos (length q.active_jobs) ≤ℤ m

pub length-select-le :
    {A : Type 0} (test : A → Bool) (xs : List A) → length (select test xs) ≤ length xs
length-select-le test [] = omega arith
length-select-le test (x ∷ xs) = ground (arith, length-select-le test xs)

module _ (env : Env) (m : ℤ) where
  try_send-IsBounded : (j : Job) (q : Queue) → IsBounded m q → IsBounded m (try_send j q).1
  try_send-IsBounded j q b = ground (arith, length-append q.job_queue (j ∷ []))

  cancel_active-IsBounded :
      (id : ℕ) (q : Queue) → IsBounded m q → IsBounded m (cancel_active id q).1
  cancel_active-IsBounded id q b =
      ground (arith, length-select-le (λ e. not (e.0 == id)) q.active_jobs)

  pub on_db-IsBounded : {A : Type 0} (a : Action Db A) → Keeps (IsBounded m) (on_db a)
  on_db-IsBounded a q b = record { capped = b.capped; few = b.few }

  notify-IsBounded : (n : Notice) → Keeps (IsBounded m) (notify env n)
  notify-IsBounded n q b = ground arith

  pub cancel_job-IsBounded : (id : ℕ) → Keeps (IsBounded m) (cancel_job env id)
  unfolding cancel_job
  cancel_job-IsBounded id q b = ground (arith, cancel_active-IsBounded id q b)

  pub delete_job-IsBounded : (id : ℕ) → Keeps (IsBounded m) (delete_job env id)
  unfolding delete_job
  delete_job-IsBounded id q b = ground (arith, cancel_active-IsBounded id q b)

  sent-IsBounded :
      (j : Job) {A : Type 0} (f : Bool → Action Queue A)
      → ((sent : Bool) → Keeps (IsBounded m) (f sent))
      → Keeps (IsBounded m) (try_send j >>= f)
  sent-IsBounded j f h = Keeps-bind (IsBounded m) (try_send j) f (try_send-IsBounded j) h

  pub retry_job-IsBounded : (id : ℕ) → Keeps (IsBounded m) (retry_job env id)
  unfolding retry_job
  retry_job-IsBounded id q b = grind (arith, length-append)

  pub enqueue-IsBounded : (j : Job) → Keeps (IsBounded m) (enqueue env j)
  unfolding enqueue
  enqueue-IsBounded j q b = grind (arith, length-append)

  check_archive-IsBounded :
      (group : Text) → Keeps (IsBounded m) (check_archive_group_complete env group)
  unfolding check_archive_group_complete
  check_archive-IsBounded group q b = grind (arith, enqueue-IsBounded)

  pub begin_job-IsBounded : (j : Job) → Keeps (IsBounded m) (begin_job env j)
  unfolding begin_job
  begin_job-IsBounded j q b = ground arith

  -- A change of the database alone.
  pub IsBounded-db : (q : Queue) (db : Db) → IsBounded m q → IsBounded m (record q { db = db })
  IsBounded-db q db b = record { capped = b.capped; few = b.few }

  check_group-IsBounded : (j : Job) → Keeps (IsBounded m) (check_group env j)
  check_group-IsBounded j =
      Keeps-if (IsBounded m) _ (check_archive_group_complete env (archive_group j)) (pure tt)
        (check_archive-IsBounded (archive_group j)) (λ q b. b)

  finish_completed-IsBounded : (j : Job) → Keeps (IsBounded m) (finish_completed env j)
  unfolding finish_completed
  finish_completed-IsBounded j q b = check_group-IsBounded j _ (IsBounded-db q _ b)

  finish_failed-IsBounded : (e : Error) (j : Job) → Keeps (IsBounded m) (finish_failed env e j)
  unfolding finish_failed
  finish_failed-IsBounded e j q b = ground arith

  finish_status-IsBounded :
      (outcome : Option Error) (j : Job) → Keeps (IsBounded m) (finish_status env outcome j)
  unfolding finish_status
  finish_status-IsBounded none j = finish_completed-IsBounded j
  finish_status-IsBounded (some e) j = finish_failed-IsBounded e j

  pub finish_job-IsBounded :
      (outcome : Option Error) (a : JobAttempt) (j : Job)
      → Keeps (IsBounded m) (finish_job env outcome a j)
  unfolding finish_job
  finish_job-IsBounded outcome a j q b =
      Keeps-then (IsBounded m) (finish_status env outcome j)
        (logged
          (on_db (update_job_attempt env.world (ended (env.world.now q.db.readings) outcome a))))
        (finish_status-IsBounded outcome j) (λ t c. IsBounded-db t _ c) _ (IsBounded-db q _ b)
