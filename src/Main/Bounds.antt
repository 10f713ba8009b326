-- ===== src/Main/Bounds.antt =====
-- cmd/grabarr/main.go: the limits of the configurations that were in force, over a whole run.
use grabarr.Common.{
  ◌≡◌, List, [], ◌∷◌, ◌≤◌, Text, Result, ok, err, Action, modify, ◌≤ℤ◌, ℤ, pos, length, Keeps,
  Preserves, preserves_rules, Preserves-bind, Preserves-or_wrap, refl, ◌>>=◌, ◌>>◌, arith,
}
use grabarr.Repository.Db.{Db, empty_db}
use grabarr.Config.{Config, RemoteConfig, load_config, reload}
use grabarr.Config.Reload.{IsSound, load_config-IsSound}
use grabarr.Queue.State.{Queue, Env, capacity, new_queue, set_job_executor}
use grabarr.Queue.Events.{handle}
use grabarr.Queue.Events.Bounds.{start-IsBounded, stop-IsBounded, handle-IsBounded}
use grabarr.Queue.Bounds.{IsBounded, on_db-IsBounded}
use grabarr.Queue.Lifetime
use grabarr.Queue.Ops
use grabarr.Repository.Jobs
use grabarr.Main.{
  App, Host, Call, Step, works, reloads, wakes, serve_started, serve, new_app, env_of, on_queue,
  deferring, from_outside, run_with, run, get_config_path, new_rsync_executor, config_after,
  queue_after, live, shut_down, note, opened, closed, Part, repository, gatekeeper, context,
  executor, shutdown_context, notify_started,
}

-- Every configuration that is loaded in some steps has at most this limit.
abbrev pub LimitsWithin : ℤ → List Step → Type 0
LimitsWithin most [] = Unit
LimitsWithin most (reloads c ∷ steps) = (c.jobs.max_concurrent ≤ℤ most) × LimitsWithin most steps
LimitsWithin most (works e ∷ steps) = LimitsWithin most steps
LimitsWithin most (wakes ∷ steps) = LimitsWithin most steps

module _ (h : Host) (first : Config) (most : ℤ) where
  config_after-within :
      (steps : List Step) (now : Config)
      → LimitsWithin most steps
      → now.jobs.max_concurrent ≤ℤ most
      → (config_after h steps now).jobs.max_concurrent ≤ℤ most
  unfolding config_after
  config_after-within [] now w low = low
  config_after-within (works e ∷ steps) now w low = config_after-within steps now w low
  config_after-within (reloads c ∷ steps) now (l, w) low = config_after-within steps _ w l
  config_after-within (wakes ∷ steps) now w low = config_after-within steps now w low

  queue_after-IsBounded :
      (steps : List Step) (now : Config) (q : Queue)
      → LimitsWithin most steps
      → now.jobs.max_concurrent ≤ℤ most
      → IsBounded most q
      → IsBounded most (queue_after h first steps now q)
  unfolding queue_after
  queue_after-IsBounded [] now q w low b = b
  queue_after-IsBounded (works e ∷ steps) now q w low b =
      queue_after-IsBounded steps now (handle (env_of h first now) e q).1 w low
        (handle-IsBounded (env_of h first now) most low e q b)
  queue_after-IsBounded (reloads c ∷ steps) now q (l, w) low b =
      queue_after-IsBounded steps (reload (ok c) now).1 q w l b
  queue_after-IsBounded (wakes ∷ steps) now q w low b = queue_after-IsBounded steps now q w low b

  abbrev BoundedApp : App → Type 0
  BoundedApp s = IsBounded most s.queue

  on_queue-BoundedApp :
      {A : Type 0} (m : Action Queue A)
      → Keeps (IsBounded most) m
      → Preserves BoundedApp (on_queue m)
  on_queue-BoundedApp m k = record { at = λ s b. k s.queue b }

  from_outside-BoundedApp :
      {A : Type 0} (text : Text) (r : Result A) → Preserves BoundedApp (from_outside text r)
  from_outside-BoundedApp text (ok a) = record { at = λ s b. b }
  from_outside-BoundedApp text (err x) = record { at = λ s b. b }

  deferring-BoundedApp :
      {A : Type 0} (call : Call) (m : Action App A)
      → Preserves BoundedApp m
      → Preserves BoundedApp (deferring call m)
  deferring-BoundedApp call m k = record { at = λ s b. k.at s b }

  modify-BoundedApp :
      (f : App → App) → ((s : App) → (f s).queue ≡ s.queue) → Preserves BoundedApp (modify f)
  modify-BoundedApp f same = record { at = λ s b. rw (same s) b }

  executor-BoundedApp : (rs : List RemoteConfig) → Preserves BoundedApp (new_rsync_executor rs)
  executor-BoundedApp [] = record { at = λ s b. b }
  executor-BoundedApp (r ∷ rs) = record { at = λ s b. b }

  module _ (now : Config) (low : now.jobs.max_concurrent ≤ℤ most) where
    abbrev env : Env
    env = env_of h first now

    start_lem : Preserves BoundedApp (on_queue (Lifetime.start env))
    start_lem = on_queue-BoundedApp (Lifetime.start env) (start-IsBounded env most low)

    stop_lem : Preserves BoundedApp (on_queue (Lifetime.stop env))
    stop_lem = on_queue-BoundedApp (Lifetime.stop env) (stop-IsBounded env most low)

    live_lem :
        (steps : List Step)
        → LimitsWithin most steps
        → Preserves BoundedApp (live h first steps now)
    live_lem steps w = record { at = λ s b. queue_after-IsBounded steps now s.queue w low b }

    -- What follows some steps is given the configuration then in force.
    live_then :
        {A : Type 0} (steps : List Step) (k : Config → Action App A)
        → LimitsWithin most steps
        → Preserves BoundedApp (k (config_after h steps now))
        → Preserves BoundedApp (live h first steps now >>= k)
    live_then steps k w p = record {
      at = λ s b. p.at _ (queue_after-IsBounded steps now s.queue w low b);
    }

  summary_lem :
      (now : Config) → Preserves BoundedApp (on_queue (Ops.get_summary (env_of h first now)))
  unfolding Ops.get_summary
  summary_lem now =
      on_queue-BoundedApp (Ops.get_summary (env_of h first now))
        (on_db-IsBounded (env_of h first now) most (Jobs.get_job_summary h.world))

  ruleset bounded_rules = (
    preserves_rules, from_outside-BoundedApp, deferring-BoundedApp, modify-BoundedApp, start_lem,
    stop_lem, live_lem, summary_lem, executor-BoundedApp, config_after-within,
  )

  shut_down-BoundedApp :
      (now : Config)
      → now.jobs.max_concurrent ≤ℤ most
      → LimitsWithin most h.ending
      → Preserves BoundedApp (shut_down h first now)
  unfolding shut_down
  shut_down-BoundedApp now low w = search bounded_rules depth 30

  new_queue_lem : pos 0 ≤ℤ most → (db : Db) → IsBounded most (new_queue db)
  new_queue_lem limit db = record { capped = omega arith; few = limit }

  fresh_lem :
      pos 0 ≤ℤ most → (db : Db) → Preserves BoundedApp (on_queue (modify (λ _. new_queue db)))
  fresh_lem limit db = record { at = λ s b. new_queue_lem limit db }

  executor_lem : Preserves BoundedApp (on_queue set_job_executor)
  executor_lem = record { at = λ s b. record { capped = b.capped; few = b.few } }

  note_lem : (call : Call) → Preserves BoundedApp (note call)
  note_lem call = record { at = λ s b. b }

  started_lem : Preserves BoundedApp (notify_started h first)
  started_lem = record { at = λ s b. ground (arith, b) }

  -- The first call, and what follows it.
  then_lem :
      {A : Type 0} (a : Action App Unit) (b : Action App A)
      → Preserves BoundedApp a
      → Preserves BoundedApp b
      → Preserves BoundedApp (a >> b)
  then_lem a b p k = Preserves-bind a (λ _. b) p (λ _. k)

  noted_lem :
      {A : Type 0} (call : Call) (b : Action App A)
      → Preserves BoundedApp b
      → Preserves BoundedApp (note call >> b)
  noted_lem call b k = then_lem (note call) b (note_lem call) k

  opened_lem :
      {A : Type 0} (p : Part) (b : Action App A)
      → Preserves BoundedApp b
      → Preserves BoundedApp (note (opened p) >> deferring (closed p) b)
  opened_lem p b k =
      noted_lem (opened p) (deferring (closed p) b) (deferring-BoundedApp (closed p) b k)

  module _ (low : first.jobs.max_concurrent ≤ℤ most) (served : LimitsWithin most h.steps)
      (ended : LimitsWithin most h.ending) where
    lived_lem : Preserves BoundedApp (
        live h first h.steps first >>= (λ now.
          note (opened shutdown_context)
          >> deferring (closed shutdown_context) (shut_down h first now)))
    lived_lem =
        let last : Config = config_after h h.steps first in
        live_then first low h.steps
          (λ now.
            note (opened shutdown_context)
            >> deferring (closed shutdown_context) (shut_down h first now))
          served
          (opened_lem shutdown_context (shut_down h first last)
            (shut_down-BoundedApp last (config_after-within h.steps first served low) ended))

    serve_started-BoundedApp : Preserves BoundedApp (serve_started h first)
    unfolding serve_started
    serve_started-BoundedApp =
        noted_lem _ _ (then_lem _ _ started_lem (noted_lem _ _ (noted_lem _ _ lived_lem)))

    serve-BoundedApp : Preserves BoundedApp (serve h first)
    unfolding serve
    serve-BoundedApp =
        then_lem _ _ (Preserves-or_wrap _ _ (start_lem first low)) serve_started-BoundedApp

    run_with-BoundedApp : pos 0 ≤ℤ most → Preserves BoundedApp (run_with h first)
    unfolding run_with
    run_with-BoundedApp limit = then_lem _ _ (modify-BoundedApp _ (λ s. refl)) (
        Preserves-bind _ _ (from_outside-BoundedApp _ _) (λ db. opened_lem repository _ (
          opened_lem gatekeeper _ (
            then_lem _ _ (fresh_lem limit db) (
              then_lem _ _ (executor-BoundedApp first.remotes) (
                then_lem _ _ executor_lem
                  (opened_lem context _ (opened_lem executor _ serve-BoundedApp))))))))

  -- With a configuration that was loaded and any reloads while the service runs and stops, a run
  -- of the service leaves at most 1000 jobs in the channel and, where no configuration has a limit
  -- above a number, at most that number of jobs listed as active, whatever the calls from outside,
  -- the rows of the database and the errors of its statements were.
  pub run-bounded :
      load_config (h.read_config (get_config_path h.variable h.exists)) h.directories ≡ ok first
      → first.jobs.max_concurrent ≤ℤ most
      → LimitsWithin most h.steps
      → LimitsWithin most h.ending
      → let q : Queue = (run h new_app).1.queue in
        (length q.job_queue ≤ capacity) × (pos (length q.active_jobs) ≤ℤ most)
  unfolding run
  run-bounded e low w v =
      let sound : IsSound first = load_config-IsSound _ _ first e in
      let limit : pos 0 ≤ℤ most =
        ground (arith, sound.limit, low, most, first.jobs.max_concurrent) in
      let b : BoundedApp (run_with h first new_app).1 =
        (run_with-BoundedApp low w v limit).at new_app (new_queue_lem limit empty_db) in
      rw e (b.capped, b.few)
