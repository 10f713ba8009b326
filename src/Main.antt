-- ===== src/Main.antt =====
-- cmd/grabarr/main.go: the service from its start to its end. The HTTP server, the signals and
-- what reading the configuration and opening the database give are arguments; what the queue does
-- while the service runs, and while it stops, is a list of steps, with the reloads of the
-- configuration among them. An error of the server's shutdown is only logged.
pub mod Closing
pub mod Bounds
pub mod Shutdown
use grabarr.Common.{
  ℕ, Bool, true, false, not, ◌&&◌, ◌==◌, Option, none, some, List, [], ◌∷◌, ◌++◌, if◌then◌else◌,
  ltb, ℤ, pos, decimal, Text, codes, ◌=t◌, Error, plain, wrapped, Result, ok, err, Action, pure,
  fail, get, modify, logged, attempt, or_wrap, for_each, ◌>>=◌, ◌>>◌,
}
use grabarr.Models.Job.{Time, JobSummary}
use grabarr.Repository.Db.{World, Db, empty_db}
use grabarr.Config.{Config, RemoteConfig, LoggingConfig, load_config, reload}
use grabarr.Notifications.{Formats, PushoverRequest, HttpOutcome, notify_system_alert}
use grabarr.Queue.State.{Queue, Env, new_queue, set_job_executor}
use grabarr.Queue.Ops
use grabarr.Queue.Lifetime
use grabarr.Queue.Events.{Event}
use grabarr.Queue.Events

pub data Level : Type 0 where
  level_debug level_info level_warn level_error : Level

pub record Logger : Type 0 where
  pub level : Level
  pub is_text : Bool

unfoldable pub setup_logging : LoggingConfig → Logger
setup_logging c = record {
  level =
      if c.level =t codes "debug"
      then level_debug
      else if c.level =t codes "info"
      then level_info
      else if c.level =t codes "warn"
      then level_warn
      else if c.level =t codes "error"
      then level_error
      else level_info;
  is_text = c.format =t codes "text";
}

-- From the environment's GRABARR_CONFIG, which is empty where it is not set, and the paths that
-- `os.Stat` finds.
unfoldable pub get_config_path : Text → (Text → Bool) → Text
get_config_path variable exists =
    if not (variable =t [])
    then variable
    else if exists (codes "/config/config.yaml")
    then codes "/config/config.yaml"
    else if exists (codes "./config.yaml")
    then codes "./config.yaml"
    else []

-- What `run` closes again by a deferred call.
pub data Part : Type 0 where
  repository gatekeeper context executor shutdown_context : Part

pub data Call : Type 0 where
  opened closed : Part → Call
  queue_started queue_stopped context_canceled : Call
  scanner_started server_started server_shut_down : Call
  alerted : (title message : Text) → ℤ → Call

-- A step of the queue; a reload of the configuration that loaded a new one; the goroutine that
-- waits for changes wakes up.
pub data Step : Type 0 where
  works : Event → Step
  reloads : Config → Step
  wakes : Step

-- The calls so far, the last one first.
pub record App : Type 0 where
  pub calls : List Call
  pub panicked : Bool
  pub logger : Logger
  pub queue : Queue

pub record Host : Type 0 where
  pub variable : Text
  pub exists : Text → Bool
  pub read_config : Text → Result Config
  pub directories : Result Unit
  pub open_repository : Text → Result Db
  pub world : World
  pub gate : ℕ → ℤ → Bool
  pub format_time : Time → Text
  pub errorf : (format : Text) → Text
  pub formats : Formats
  pub http : PushoverRequest → HttpOutcome
  pub now : Time
  pub steps : List Step
  pub ending : List Step

-- main's own logger is set before `run` is called.
abbrev pub new_app : App
new_app = record {
  calls = [];
  panicked = false;
  logger = record { level = level_info; is_text = false };
  queue = new_queue empty_db;
}

abbrev pub note : Call → Action App Unit
note c = modify (λ s. record s { calls = c ∷ s.calls })

-- A call of the queue.
abbrev pub on_queue : {A : Type 0} → Action Queue A → Action App A
on_queue m s = let (r, q) = m s.queue in (r, record s { queue = q })

-- `defer`: what is left to do runs, and then the deferred call, whatever the result.
abbrev pub deferring : {A : Type 0} → Call → Action App A → Action App A
deferring c m s = let (r, t) = m s in (r, record t { calls = c ∷ t.calls })

-- A result from outside, with the text that an error is wrapped in.
abbrev pub from_outside : {A : Type 0} → Text → Result A → Action App A
from_outside text (ok a) = pure a
from_outside text (err e) = fail (wrapped text e)

-- The deferred calls run as for an error, which nobody wraps.
abbrev pub panic : Text → Action App Unit
panic text s = (err (plain text), record s { panicked = true })

-- NewRsyncExecutor; the executor itself is an argument of the queue.
abbrev pub new_rsync_executor : List RemoteConfig → Action App Unit
new_rsync_executor [] = panic (codes "no remotes configured")
new_rsync_executor (r ∷ rs) = pure tt

module _ (h : Host) where
  -- The notifier is enabled or not from its creation on; the other sections are read at each use.
  abbrev pub env_of : (first now : Config) → Env
  env_of first now = record {
    world = h.world;
    jobs = now.jobs;
    extraction = now.extraction;
    gate = h.gate;
    notifier_enabled = first.notifications.pushover.enabled;
    format_time = h.format_time;
    errorf = h.errorf;
  }

  -- The configuration in force after some steps.
  unfoldable pub config_after : List Step → Config → Config
  unfolding reload
  config_after [] now = now
  config_after (works e ∷ steps) now = config_after steps now
  config_after (reloads c ∷ steps) now = config_after steps (reload (ok c) now).1
  config_after (wakes ∷ steps) now = config_after steps now

  unfoldable pub logger_after : List Step → Config → Logger → Logger
  unfolding reload setup_logging
  logger_after [] now l = l
  logger_after (works e ∷ steps) now l = logger_after steps now l
  logger_after (reloads c ∷ steps) now l = logger_after steps (reload (ok c) now).1 l
  logger_after (wakes ∷ steps) now l = logger_after steps now (setup_logging now.logging)

  unfoldable pub queue_after : (first : Config) → List Step → (now : Config) → Queue → Queue
  unfolding reload
  queue_after first [] now q = q
  queue_after first (works e ∷ steps) now q =
      queue_after first steps now (Events.handle (env_of first now) e q).1
  queue_after first (reloads c ∷ steps) now q = queue_after first steps (reload (ok c) now).1 q
  queue_after first (wakes ∷ steps) now q = queue_after first steps now q

  -- Returns the configuration then in force.
  abbrev pub live : (first : Config) → List Step → (now : Config) → Action App Config
  live first steps now =
      modify (λ s. record s {
        queue = queue_after first steps now s.queue;
        logger = logger_after steps now s.logger;
      })
      >> pure (config_after steps now)

  -- A notification of the notifier, which sends nothing if it is not enabled.
  abbrev pub alert : (first now : Config) → (title message : Text) → ℤ → Action App (Result Unit)
  alert first now title message priority =
      note (alerted title message priority)
      >> pure (
          notify_system_alert h.formats now.notifications.pushover h.now
            first.notifications.pushover.enabled h.http title message priority)

  -- The notification of the start, an error of which is only logged.
  abbrev pub notify_started : Config → Action App Unit
  notify_started c =
      if c.notifications.pushover.enabled
      then alert c c (codes "Service Started")
          (codes "Grabarr has started successfully and is ready to process jobs.") (pos 0)
        >> pure tt
      else pure tt

  -- The number of jobs that the summary has as queued; none where it fails.
  abbrev pub interrupted_jobs : Result JobSummary → ℕ
  interrupted_jobs (err e) = 0
  interrupted_jobs (ok s) = s.queued_jobs

  abbrev pub shutdown_message : ℕ → Text
  shutdown_message n =
      codes "Grabarr is shutting down. "
      ++ decimal (pos n)
      ++ codes " job(s) have been queued for restart."

  abbrev pub notify_stopped : (first now : Config) → ℕ → Action App Unit
  notify_stopped first now n =
      if ltb 0 n && first.notifications.pushover.enabled
      then alert first now (codes "Service Shutdown") (shutdown_message n) (pos 1) >> pure tt
      else pure tt

  -- From the signal on; while Stop waits, goroutines end.
  unfoldable pub shut_down : (first now : Config) → Action App Unit
  unfolding queue_after logger_after config_after
  shut_down first now = do
    note server_shut_down
    note queue_stopped
    logged (on_queue (Lifetime.stop (env_of first now)))
    last ← live first h.ending now
    note context_canceled
    summary ← attempt (on_queue (Ops.get_summary (env_of first last)))
    notify_stopped first last (interrupted_jobs summary)

  -- From the start of the queue on, which was no error.
  unfoldable pub serve_started : Config → Action App Unit
  unfolding shut_down
  serve_started c = do
    note queue_started
    notify_started c
    note scanner_started
    note server_started
    now ← live c h.steps c
    note (opened shutdown_context)
    deferring (closed shutdown_context) (shut_down c now)

  unfoldable pub serve : Config → Action App Unit
  unfolding serve_started
  serve c =
      or_wrap (on_queue (Lifetime.start (env_of c c))) (codes "failed to start job queue")
      >> serve_started c

  -- Starting the gatekeeper and stopping it give no error.
  unfoldable pub run_with : Config → Action App Unit
  unfolding serve
  run_with c = do
    modify (λ s. record s { logger = setup_logging c.logging })
    db ← from_outside (codes "failed to initialize database") (h.open_repository c.database.path)
    note (opened repository)
    deferring (closed repository) (do
      note (opened gatekeeper)
      deferring (closed gatekeeper) (do
        on_queue (modify (λ _. new_queue db))
        new_rsync_executor c.remotes
        on_queue set_job_executor
        note (opened context)
        deferring (closed context)
            (do note (opened executor); deferring (closed executor) (serve c))))

  unfoldable pub run : Action App Unit
  unfolding run_with setup_logging get_config_path
  run = do
    c ←
        from_outside (codes "failed to load configuration")
          (load_config (h.read_config (get_config_path h.variable h.exists)) h.directories)
    run_with c

  -- The exit code of the program; a panic is 2.
  unfoldable pub main : ℕ
  unfolding run
  main = let (r, s) = run new_app in if s.panicked then 2 else elim r [ ok _ ↦ 0 | err e ↦ 1 ]
