-- ===== src/Queue/State.antt =====
-- internal/queue/queue.go: the state of the queue, its environment, and the channel.
use grabarr.Common.{
  ℕ, Bool, true, false, not, Option, none, some, List, [], ◌∷◌, ◌++◌, ◌==◌, if◌then◌else◌, length,
  select, ltb, ℤ, Text, ok, Action, pure, modify,
}
use grabarr.Models.Job.{Time, Job, JobAttempt}
use grabarr.Repository.Db.{World, Db}
use grabarr.Config.{JobsConfig, ExtractionConfig}

pub data Notice : Type 0 where
  job_failed : Job → Notice
  system_alert : (title message : Text) (priority : ℤ) → Notice

-- A goroutine of `scheduleJob`: the number of its context, its job, and its attempt from the time
-- on that the executor runs.
pub record Run : Type 0 where
  pub context : ℕ
  pub job : Job
  pub attempt : Option JobAttempt

-- `active_jobs` maps a job's id to the context that its cancel function cancels; `canceled` are the
-- contexts that were cancelled. `runs` are the goroutines that have not ended. `job_queue` is the
-- channel, its next element first.
pub record Queue : Type 0 where
  pub db : Db
  pub has_executor : Bool
  pub running : Bool
  pub active_jobs : List (ℕ × ℕ)
  pub canceled : List ℕ
  pub last_context : ℕ
  pub runs : List Run
  pub job_queue : List Job
  pub notices : List Notice
  pub asked : ℕ

-- What the queue is given: the database's world, the configuration, the gatekeeper's answers by
-- the number of the question, whether there is a notifier that is enabled, the text of a time, and what
-- `fmt.Errorf` makes of a format without arguments.
pub record Env : Type 0 where
  pub world : World
  pub jobs : JobsConfig
  pub extraction : ExtractionConfig
  pub gate : ℕ → ℤ → Bool
  pub notifier_enabled : Bool
  pub format_time : Time → Text
  pub errorf : (format : Text) → Text

-- The channel's buffer.
abbrev pub capacity : ℕ
capacity = 1000

-- `New`
abbrev pub new_queue : Db → Queue
new_queue db = record {
  db = db;
  has_executor = false;
  running = false;
  active_jobs = [];
  canceled = [];
  last_context = 0;
  runs = [];
  job_queue = [];
  notices = [];
  asked = 0;
}

abbrev pub set_job_executor : Action Queue Unit
set_job_executor = modify (λ q. record q { has_executor = true })

-- A call of the repository.
abbrev pub on_db : {A : Type 0} → Action Db A → Action Queue A
on_db m q = let (r, db) = m q.db in (r, record q { db = db })

-- `select { case q.jobQueue <- job: … default: … }`, with whether the job was sent.
abbrev pub try_send : Job → Action Queue Bool
try_send j q =
    if ltb (length q.job_queue) capacity
    then (ok true, record q { job_queue = q.job_queue ++ j ∷ [] })
    else (ok false, q)

abbrev pub notify : Env → Notice → Action Queue Unit
notify env n =
    if env.notifier_enabled
    then modify (λ q. record q { notices = q.notices ++ n ∷ [] })
    else pure tt

abbrev pub find_active : ℕ → List (ℕ × ℕ) → Option ℕ
find_active id [] = none
find_active id ((k, context) ∷ rest) = if k == id then some context else find_active id rest

abbrev pub delete_active : ℕ → List (ℕ × ℕ) → List (ℕ × ℕ)
delete_active id = select (λ e. not (e.0 == id))

-- `if cancel, exists := q.activeJobs[id]; exists { cancel(); delete(q.activeJobs, id) }`
abbrev pub cancel_active : ℕ → Action Queue Unit
cancel_active id = modify (λ q. record q {
  canceled = elim (find_active id q.active_jobs) [ none ↦ q.canceled | some c ↦ c ∷ q.canceled ];
  active_jobs = delete_active id q.active_jobs;
})
