-- ===== src/Sync/Loops/Scans.antt =====
-- internal/sync/scanner.go: what a scan keeps of the queue, and the loops of Start.
use grabarr.Common.{
  ℕ, Bool, true, false, Option, none, some, List, [], ◌∷◌, if◌then◌else◌, Result, ok, err, Error,
  Action, pure, Preserves, attempt, ◌>>=◌, ◌+◌, Preserves-attempt, Preserves-bind, Preserves-result,
  Preserves-fail, Preserves-or_wrap, fail, logged, Preserves-logged, or_wrap, plain, wrapped, codes,
  ◌>>◌, Preserves-pure, preserves_rules,
}
use grabarr.Config.{Config, WatchedPath, RemoteConfig}
use grabarr.Models.Job.{Time}
use grabarr.Models.RemoteFile.{RemoteFile}
use grabarr.Repository.Db.{time_now}
use grabarr.Queue.State.{Queue, Env, on_db}
use grabarr.Sync.Listing.{Seedbox, ssh_list_files, compile_patterns}
use grabarr.Sync.Scanner.{
  Scanner, ScanStatus, unless_done, on_queue, ctx_err, set_status, sync_job_statuses,
  auto_queue_file, auto_queue_new_files, list_path, upsert_file, reconcile, scan_path, count_found,
  scan_paths, all_paths, run_scan, land, scan_now,
}
use grabarr.Sync.Loops.Kept.{
  IsKept, now-Q, auto_queue_file-Q, cancel_jobs-Q, sync_job_statuses-Q, queue_rules,
}

module _ (env : Env) (Q : Queue → Type 0) (kept : IsKept env Q) where
  abbrev pub HasQ : Scanner → Type 0
  HasQ s = Q s.queue

  pub on_queue-Q : {A : Type 0} (m : Action Queue A) → Preserves Q m → Preserves HasQ (on_queue m)
  on_queue-Q m k = record { at = λ s q. k.at s.queue q }

  set_status-Q : (f : ScanStatus → ScanStatus) → Preserves HasQ (set_status f)
  set_status-Q f = record { at = λ s q. q }

  ctx_err-Q : (box : Seedbox) → Preserves HasQ (ctx_err box)
  ctx_err-Q box = record { at = λ s q. q }

  ruleset scan_rules = (preserves_rules, on_queue-Q, set_status-Q, ctx_err-Q)

  module _ (cfg : Config) (box : Seedbox) where
    unless_done-Q :
        {A : Type 0} (m : Error → Action Scanner A) (k : Action Scanner A) (o : Option Error)
        → ((e : Error) → Preserves HasQ (m e))
        → Preserves HasQ k
        → Preserves HasQ (unless_done m k o)
    unless_done-Q m k none hm hk = hk
    unless_done-Q m k (some e) hm hk = hm e

    auto_queue-Q :
        (wp : WatchedPath) (fs : List RemoteFile)
        → Preserves HasQ (auto_queue_new_files cfg box env wp fs)
    unfolding auto_queue_new_files
    auto_queue-Q wp [] = search scan_rules
    auto_queue-Q wp (f ∷ fs) =
        let go_on : Action Scanner Unit =
          on_queue (auto_queue_file cfg env wp f) >> auto_queue_new_files cfg box env wp fs in
        let k : Preserves HasQ go_on =
          Preserves-bind (on_queue (auto_queue_file cfg env wp f))
            (λ _. auto_queue_new_files cfg box env wp fs)
            (on_queue-Q (auto_queue_file cfg env wp f) (auto_queue_file-Q env Q kept cfg wp f))
            (λ _. auto_queue-Q wp fs) in
        Preserves-bind (ctx_err box) (unless_done (λ _. pure tt) go_on) (ctx_err-Q box)
          (λ o. unless_done-Q (λ _. pure tt) go_on o (λ e. Preserves-pure tt) k)

    list_path-Q :
        (remote : RemoteConfig) (wp : WatchedPath) → Preserves Q (list_path cfg box env remote wp)
    unfolding list_path
    list_path-Q remote wp =
        Preserves-result
          (λ excludes.
            or_wrap (on_db (ssh_list_files box env.world remote wp excludes))
              (codes "ssh list files"))
          (λ e. fail (wrapped (codes "invalid exclude_patterns") e))
          (compile_patterns box wp.exclude_patterns)
          (λ excludes. Preserves-or_wrap _ _ (kept.by_files _)) (λ e. Preserves-fail _)

    upsert_file-Q : (f : RemoteFile) → Preserves Q (upsert_file cfg box env f)
    upsert_file-Q f = search queue_rules depth 8

    reconcile-Q :
        (wp : WatchedPath) (t : Time) (fs : List RemoteFile)
        → Preserves HasQ (reconcile cfg box env wp t fs)
    unfolding reconcile
    reconcile-Q wp t fs =
        search (scan_rules, queue_rules, upsert_file-Q, auto_queue-Q, cancel_jobs-Q env Q kept)
          depth 20

    scan_path-Q :
        (remote : RemoteConfig) (wp : WatchedPath) (t : Time)
        → Preserves HasQ (scan_path cfg box env remote wp t)
    unfolding scan_path
    scan_path-Q remote wp t =
        Preserves-bind (on_queue (list_path cfg box env remote wp)) (reconcile cfg box env wp t)
          (on_queue-Q (list_path cfg box env remote wp) (list_path-Q remote wp)) (reconcile-Q wp t)

    count_found-Q : (r : Result ℕ) → Preserves HasQ (count_found cfg box env r)
    count_found-Q (ok n) = search scan_rules
    count_found-Q (err e) = search scan_rules depth 8

    scan_paths-Q :
        (paths : List (RemoteConfig × WatchedPath)) (t : Time) (total : ℕ)
        → Preserves HasQ (scan_paths cfg box env paths t total)
    unfolding scan_paths
    scan_paths-Q [] t total = search scan_rules
    scan_paths-Q ((remote, wp) ∷ rest) t total =
        let one : Action Scanner ℕ =
          attempt (scan_path cfg box env remote wp t) >>= count_found cfg box env in
        let go_on : Action Scanner ℕ = one >>= (λ n. scan_paths cfg box env rest t (total + n)) in
        let counted : Preserves HasQ one =
          Preserves-bind (attempt (scan_path cfg box env remote wp t)) (count_found cfg box env)
            (Preserves-attempt _ (scan_path-Q remote wp t)) count_found-Q in
        let k : Preserves HasQ go_on =
          Preserves-bind one (λ n. scan_paths cfg box env rest t (total + n)) counted
            (λ n. scan_paths-Q rest t (total + n)) in
        Preserves-bind (ctx_err box) (unless_done fail go_on) (ctx_err-Q box)
          (λ o. unless_done-Q fail go_on o (λ e. Preserves-fail e) k)

    run_scan-Q : Preserves HasQ (run_scan cfg box env)
    unfolding run_scan
    run_scan-Q =
        let now : Action Scanner Time = on_queue (on_db (time_now env.world)) in
        let told : Preserves HasQ now =
          on_queue-Q (on_db (time_now env.world)) (now-Q env Q kept) in
        let finish : ℕ → Action Scanner Unit = λ total. now >>= (λ t.
          set_status
            (λ st. record st { last_scan_at = some t; files_found = total; error = [] })) in
        let sync : Action Scanner Unit = logged (on_queue (sync_job_statuses env)) in
        let synced : Preserves HasQ sync =
          Preserves-logged (on_queue (sync_job_statuses env))
            (on_queue-Q (sync_job_statuses env) (sync_job_statuses-Q env Q kept)) in
        Preserves-bind now
          (λ t.
            scan_paths cfg box env (all_paths cfg box env cfg.remotes) t 0
            >>= (λ total. sync >>= (λ _. finish total)))
          told
          (λ t.
            Preserves-bind (scan_paths cfg box env (all_paths cfg box env cfg.remotes) t 0)
              (λ total. sync >>= (λ _. finish total))
              (scan_paths-Q (all_paths cfg box env cfg.remotes) t 0)
              (λ total.
                Preserves-bind sync (λ _. finish total) synced
                  (λ _.
                    Preserves-bind now
                      (λ u. set_status (λ st. record st {
                        last_scan_at = some u;
                        files_found = total;
                        error = [];
                      }))
                      told (λ u. set_status-Q _))))

    pub scan_now-Q : Preserves HasQ (scan_now cfg box env)
    unfolding scan_now
    scan_now-Q = record { at = λ s q. landed s.status.scan_in_flight s q }
      where
        landed :
            (b : Bool) (s : Scanner)
            → HasQ s
            → HasQ
                (if b
                  then (err (plain (codes "scan already in progress")), s)
                  else land cfg box env
                      (run_scan cfg box env)
                      (record s { status = record s.status { scan_in_flight = true } })).1
        landed true s q = q
        landed false s q =
            run_scan-Q.at (record s { status = record s.status { scan_in_flight = true } }) q
