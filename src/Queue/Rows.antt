-- ===== src/Queue/Rows.antt =====
-- internal/queue/queue.go: the calls of the queue and the two ends of an execution keep the table of
-- jobs valid.
pub mod Scheduling
use grabarr.Common.{
  ℕ, suc, ◌≡◌, Bool, true, false, not, refl, modify, pure, ◌>>◌, Option-cases, Option, none, some,
  List, [], ◌∷◌, ◌++◌, Text, codes, Error, Result, ok, err, Action, ◌>>=◌, Preserves,
  preserves_rules, Preserves-bind, inl, inr, arith,
}
use grabarr.Models.Job.{Job, JobAttempt, JobProgress, archive_group, JobFilter}
use grabarr.Repository.Db.{World, Db, exec, exec_ind, time_now}
use grabarr.Repository.Jobs
use grabarr.Repository.Jobs.Laws.{IsValid}
use grabarr.Repository.Jobs.Operations.{
  update_job-IsValid, create_job-IsValid, delete_job-IsValid, cleanup_old_jobs-IsValid,
}
use grabarr.Queue.State.{Queue, Env, Notice, on_db, try_send, notify, cancel_active}
use grabarr.Queue.Archives.{plan_extraction, enqueue_planned, check_archive_group_complete}
use grabarr.Queue.Execute.{
  begin_job, begin_marked, finish_failed, finish_completed, finish_status, finish_job,
}
use grabarr.Queue.Ops.{enqueue, cancel_job, delete_job, retry_job, enqueue_failed}

-- The table of jobs of a queue's database.
pub record HasValidRows (q : Queue) : Type 0 where
  pub rows : IsValid q.db

pub on_db-HasValidRows :
    {A : Type 0} (m : Action Db A) → Preserves IsValid m → Preserves HasValidRows (on_db m)
on_db-HasValidRows m k = record { at = λ q v. record { rows = k.at q.db v.rows } }

pub cancel_active-HasValidRows : (id : ℕ) → Preserves HasValidRows (cancel_active id)
cancel_active-HasValidRows id = record { at = λ q v. record { rows = v.rows } }

module _ (env : Env) where
  pub exec-IsValid :
      {A : Type 0} (text : Text) (run : Action Db A)
      → Preserves IsValid run
      → Preserves IsValid (exec env.world text run)
  exec-IsValid text run k = record {
    at = λ db v.
        exec_ind env.world IsValid text run db (record { unique = v.unique; bounded = v.bounded })
          (k.at _);
  }

  pub update_job-keeps : (j : Job) → Preserves IsValid (Jobs.update_job env.world j)
  update_job-keeps j = record { at = update_job-IsValid env.world j }

  pub create_job-keeps : (j : Job) → Preserves IsValid (Jobs.create_job env.world j)
  create_job-keeps j = record { at = create_job-IsValid env.world j }

  pub delete_job-keeps : (id : ℕ) → Preserves IsValid (Jobs.delete_job env.world id)
  delete_job-keeps id = record { at = delete_job-IsValid env.world id }

  pub time_now-keeps : Preserves IsValid (time_now env.world)
  time_now-keeps = record { at = λ db v. record { unique = v.unique; bounded = v.bounded } }

  select_job-keeps : (id : ℕ) → Preserves IsValid (Jobs.select_job env.world id)
  select_job-keeps id = record {
    at = λ db v. ground (arith, Option-cases (Jobs.find_job id db.jobs));
  }

  pub get_job-keeps : (id : ℕ) → Preserves IsValid (Jobs.get_job env.world id)
  unfolding Jobs.get_job
  get_job-keeps id = exec-IsValid _ (Jobs.select_job env.world id) (select_job-keeps id)

  select_jobs-keeps : (f : JobFilter) → Preserves IsValid (Jobs.select_jobs env.world f)
  select_jobs-keeps f = record { at = λ db v. ground arith }

  pub get_jobs-keeps : (f : JobFilter) → Preserves IsValid (Jobs.get_jobs env.world f)
  unfolding Jobs.get_jobs
  get_jobs-keeps f = exec-IsValid _ (Jobs.select_jobs env.world f) (select_jobs-keeps f)

  pub group-keeps :
      (group : Text) → Preserves IsValid (Jobs.get_jobs_by_archive_group env.world group)
  unfolding Jobs.get_jobs_by_archive_group
  group-keeps group = search (preserves_rules, exec-IsValid) depth 12

  -- A change of the other tables.
  pub same_jobs-keeps :
      (f : Db → Db)
      → ((db : Db) → (f db).jobs ≡ db.jobs)
      → ((db : Db) → (f db).last_job_id ≡ db.last_job_id)
      → Preserves IsValid (modify f)
  same_jobs-keeps f js last = record {
    at = λ db v. record { unique = rw (js db) v.unique; bounded = rw (js db, last db) v.bounded };
  }

  pub attempt-keeps : (a : JobAttempt) → Preserves IsValid (Jobs.create_job_attempt env.world a)
  unfolding Jobs.create_job_attempt
  attempt-keeps a = search (preserves_rules, exec-IsValid, time_now-keeps, same_jobs-keeps) depth 12

  pub end_attempt-keeps : (a : JobAttempt) → Preserves IsValid (Jobs.update_job_attempt env.world a)
  unfolding Jobs.update_job_attempt
  end_attempt-keeps a = search (preserves_rules, exec-IsValid, same_jobs-keeps) depth 12

  ruleset row_rules = (
    preserves_rules, on_db-HasValidRows, cancel_active-HasValidRows, get_job-keeps,
    update_job-keeps, create_job-keeps, delete_job-keeps, time_now-keeps,
  )

  pub cancel_job-HasValidRows : (id : ℕ) → Preserves HasValidRows (cancel_job env id)
  unfolding cancel_job
  cancel_job-HasValidRows id = search row_rules depth 12

  pub try_send-HasValidRows : (j : Job) → Preserves HasValidRows (try_send j)
  try_send-HasValidRows j = record { at = λ q v. ground arith }

  pub notify-HasValidRows : (n : Notice) → Preserves HasValidRows (notify env n)
  notify-HasValidRows n = record { at = λ q v. ground arith }

  pub delete_job-HasValidRows : (id : ℕ) → Preserves HasValidRows (delete_job env id)
  unfolding delete_job
  delete_job-HasValidRows id = search row_rules depth 12

  pub retry_job-HasValidRows : (id : ℕ) → Preserves HasValidRows (retry_job env id)
  unfolding retry_job
  retry_job-HasValidRows id = search (row_rules, try_send-HasValidRows) depth 12

  created-HasValidRows :
      (full : Job) (r : Result Job)
      → Preserves HasValidRows
          (elim r [ err e ↦ enqueue_failed env full e | ok saved ↦ try_send saved >> pure saved ])
  created-HasValidRows full (ok saved) = search (row_rules, try_send-HasValidRows) depth 12
  created-HasValidRows full (err e) = search (row_rules, notify-HasValidRows) depth 12

  pub enqueue-HasValidRows : (j : Job) → Preserves HasValidRows (enqueue env j)
  unfolding enqueue
  enqueue-HasValidRows j = search (row_rules, created-HasValidRows) depth 12

  ruleset call_rules = (
    row_rules, try_send-HasValidRows, notify-HasValidRows, enqueue-HasValidRows, group-keeps,
    get_jobs-keeps, attempt-keeps, end_attempt-keeps,
  )

  planned-HasValidRows : (o : Option Job) → Preserves HasValidRows (enqueue_planned env o)
  planned-HasValidRows none = search preserves_rules
  planned-HasValidRows (some j) = search call_rules depth 12

  group_found-HasValidRows :
      (group : Text) (r : Result (List Job))
      → Preserves HasValidRows (elim r [
        | err e ↦ pure tt
        | ok group_jobs ↦ enqueue_planned env (plan_extraction env group group_jobs)
      ])
  group_found-HasValidRows group (err e) = search preserves_rules
  group_found-HasValidRows group (ok js) = planned-HasValidRows (plan_extraction env group js)

  check_archive-HasValidRows :
      (group : Text) → Preserves HasValidRows (check_archive_group_complete env group)
  unfolding check_archive_group_complete
  check_archive-HasValidRows group = search (call_rules, group_found-HasValidRows) depth 12

  marked-HasValidRows :
      (j : Job) (r : Result (Unit {0})) → Preserves HasValidRows (begin_marked env j r)
  marked-HasValidRows j (err e) = search preserves_rules
  marked-HasValidRows j (ok u) = search call_rules depth 12

  pub begin_job-HasValidRows : (j : Job) → Preserves HasValidRows (begin_job env j)
  unfolding begin_job
  begin_job-HasValidRows j = search (call_rules, marked-HasValidRows) depth 12

  finish_failed-HasValidRows :
      (e : Error) (j : Job) → Preserves HasValidRows (finish_failed env e j)
  unfolding finish_failed
  finish_failed-HasValidRows e j = search call_rules depth 12

  finish_completed-HasValidRows : (j : Job) → Preserves HasValidRows (finish_completed env j)
  unfolding finish_completed
  finish_completed-HasValidRows j = search (call_rules, check_archive-HasValidRows) depth 12

  finish_status-HasValidRows :
      (outcome : Option Error) (j : Job) → Preserves HasValidRows (finish_status env outcome j)
  unfolding finish_status
  finish_status-HasValidRows none j = finish_completed-HasValidRows j
  finish_status-HasValidRows (some e) j = finish_failed-HasValidRows e j

  pub finish_job-HasValidRows :
      (outcome : Option Error) (a : JobAttempt) (j : Job)
      → Preserves HasValidRows (finish_job env outcome a j)
  unfolding finish_job
  finish_job-HasValidRows outcome a j = search (call_rules, finish_status-HasValidRows) depth 12

pub ruleset rows_rules = (
  preserves_rules, on_db-HasValidRows, get_job-keeps, get_jobs-keeps, update_job-keeps,
  time_now-keeps, try_send-HasValidRows,
)
