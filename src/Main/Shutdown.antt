-- ===== src/Main/Shutdown.antt =====
-- cmd/grabarr/main.go: the notification of the shutdown.
use grabarr.Common.{
  ℕ, ◌≡◌, ◌&&◌, none, List, [], ◌∷◌, ◌++◌, if◌then◌else◌, ltb, pos, decimal, codes, logged, ok,
  arith,
}
use grabarr.Models.Job.Status.{JobStatus}
use grabarr.Config.{Config}
use grabarr.Repository.Jobs.{count_status, get_job_summary}
use grabarr.Queue.State.{Queue}
use grabarr.Queue.Ops.{get_summary}
use grabarr.Queue.Lifetime
use grabarr.Main.{
  App, Host, Call, alerted, context_canceled, queue_stopped, server_shut_down, env_of, queue_after,
  config_after, live, interrupted_jobs, on_queue, notify_stopped, shut_down,
}

module _ (h : Host) (c : Config) where
  abbrev pub alerts : ℕ → List Call
  alerts n =
      if ltb 0 n && c.notifications.pushover.enabled
      then alerted (codes "Service Shutdown")
          (codes "Grabarr is shutting down. "
            ++ decimal (pos n)
            ++ codes " job(s) have been queued for restart.")
          (pos 1)
        ∷ []
      else []

module _ (h : Host) (c : Config) (quiet : (n : ℕ) → h.world.fault n ≡ none) where
  -- The count of the summary, also where the table is empty and the summary is an error.
  interrupted_jobs-count :
      (now : Config) (q : Queue)
      → interrupted_jobs h (get_summary (env_of h c now) q).0
        ≡ count_status JobStatus.queued q.db.jobs
  unfolding get_summary get_job_summary
  interrupted_jobs-count now q = ground (arith, quiet q.db.statements)

  notify_stopped-calls :
      (now : Config) (n : ℕ) (s : App)
      → ((notify_stopped h c now n s).0 ≡ ok tt)
        × ((notify_stopped h c now n s).1.calls ≡ alerts h c n ++ s.calls)
  notify_stopped-calls now n s = ground arith

  -- Where the driver reports no error, the shutdown stops the queue and cancels the context, and,
  -- if the notifications were enabled at the start, the notifier is told of as many jobs as have a
  -- queued row then, if there are any. These are all that wait in the queue, not only those that
  -- the shutdown interrupts.
  pub shut_down-calls :
      (now : Config) (s : App)
      → let q : Queue = queue_after h c h.ending now (Lifetime.stop (env_of h c now) s.queue).1 in
        (shut_down h c now s).1.calls
        ≡ alerts h c (count_status JobStatus.queued q.db.jobs)
          ++ context_canceled ∷ queue_stopped ∷ server_shut_down ∷ s.calls
  unfolding shut_down
  shut_down-calls now s =
      let stopped : App =
        (logged (on_queue (Lifetime.stop (env_of h c now)))
          (record s { calls = queue_stopped ∷ server_shut_down ∷ s.calls })).1 in
      let ended : App = (live h c h.ending now stopped).1 in
      let last : Config = config_after h h.ending now in
      let q : Queue = ended.queue in
      let t : App = record ended {
        calls = context_canceled ∷ queue_stopped ∷ server_shut_down ∷ s.calls;
        queue = (get_summary (env_of h c last) q).1;
      } in
      rw (interrupted_jobs-count last q)
        (notify_stopped-calls last (count_status JobStatus.queued q.db.jobs) t).1
