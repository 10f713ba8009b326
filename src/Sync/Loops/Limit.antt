-- ===== src/Sync/Loops/Limit.antt =====
-- internal/sync/scanner.go and internal/queue/queue.go: the bounds of the queue under the loops of
-- the scanner, the requests for a scan and the events of the queue.
use grabarr.Common.{
  ◌≤◌, List, [], ◌∷◌, length, Action, Preserves, Preserves-if, Preserves-pure, Preserves-logged,
  logged, pure, Keeps, ℤ, pos, ◌≤ℤ◌, arith,
}
use grabarr.Config.{Config}
use grabarr.Repository.Db.{Db}
use grabarr.Repository.Jobs
use grabarr.Queue.State.{Queue, Env, capacity, on_db, new_queue}
use grabarr.Queue.Ops.{get_job}
use grabarr.Queue.Bounds.{IsBounded, on_db-IsBounded, cancel_job-IsBounded, enqueue-IsBounded}
use grabarr.Queue.Events.Bounds.{handle-IsBounded}
use grabarr.Sync.Listing.{Seedbox}
use grabarr.Sync.Scanner.{Scanner, on_queue, scan_now, sync_job_statuses}
use grabarr.Sync.Loops.{
  LoopEvent, scan_ticks, scan_requested, sync_ticks, of_queue, under, new_scanner, step, run_loops,
}
use grabarr.Sync.Loops.Kept.{IsKept, sync_job_statuses-Q}
use grabarr.Sync.Loops.Scans.{on_queue-Q, scan_now-Q}

-- The configurations of the queue's own events have at most this limit.
abbrev pub LimitsWithin : ℤ → List LoopEvent → Type 0
LimitsWithin most [] = Unit
LimitsWithin most (of_queue now e ∷ es) = (now.jobs.max_concurrent ≤ℤ most) × LimitsWithin most es
LimitsWithin most (_ ∷ es) = LimitsWithin most es

module _ (cfg : Config) (env : Env) (most : ℤ) where
  kept-IsBounded :
      {A : Type 0} (m : Action Queue A) → Keeps (IsBounded most) m → Preserves (IsBounded most) m
  kept-IsBounded m k = record { at = k }

  -- What a scan calls never makes a job active.
  bounds_kept : (now : Env) → IsKept now (IsBounded most)
  unfolding get_job
  bounds_kept now = record {
    by_files = λ m. kept-IsBounded (on_db m) (on_db-IsBounded now most m);
    by_get_job = λ id.
        kept-IsBounded (get_job now id) (on_db-IsBounded now most (Jobs.get_job now.world id));
    by_cancel_job = λ id. kept-IsBounded _ (cancel_job-IsBounded now most id);
    by_enqueue = λ j. kept-IsBounded _ (enqueue-IsBounded now most j);
  }

  abbrev BoundedScanner : Scanner → Type 0
  BoundedScanner s = IsBounded most s.queue

  scan-IsBounded :
      (now : Config) (box : Seedbox)
      → Preserves BoundedScanner (logged (scan_now now box (under env now)))
  scan-IsBounded now box =
      Preserves-logged _
        (scan_now-Q (under env now) (IsBounded most) (bounds_kept (under env now)) now box)

  run_loops-IsBounded :
      (es : List LoopEvent) (s : Scanner)
      → LimitsWithin most es
      → BoundedScanner s
      → BoundedScanner (run_loops cfg env es s)
  unfolding run_loops step
  run_loops-IsBounded [] s w b = b
  run_loops-IsBounded (scan_ticks now box ∷ es) s w b =
      run_loops-IsBounded es (step cfg env (scan_ticks now box) s).1 w (
        (Preserves-if cfg.sync.enabled _ (pure tt) (scan-IsBounded now box) (Preserves-pure tt)).at
          s b)
  run_loops-IsBounded (scan_requested now box ∷ es) s w b =
      run_loops-IsBounded es (step cfg env (scan_requested now box) s).1 w
        ((scan-IsBounded now box).at s b)
  run_loops-IsBounded (sync_ticks ∷ es) s w b =
      run_loops-IsBounded es (step cfg env sync_ticks s).1 w (
        (Preserves-if cfg.sync.enabled (logged (on_queue (sync_job_statuses env))) (pure tt)
            (Preserves-logged (on_queue (sync_job_statuses env)) (
              on_queue-Q env (IsBounded most) (bounds_kept env) (sync_job_statuses env)
                (sync_job_statuses-Q env (IsBounded most) (bounds_kept env))))
            (Preserves-pure tt)).at
          s b)
  run_loops-IsBounded (of_queue now e ∷ es) s (low, w) b =
      run_loops-IsBounded es (step cfg env (of_queue now e) s).1 w
        (handle-IsBounded (under env now) most low e s.queue b)

  -- Over any order of the ticks of the two loops of the scanner, requested scans and events of the
  -- queue, from a new scanner of a new queue, the channel holds at most 1000 jobs and, where none
  -- of the configurations under which the events of the queue happen has a limit above a number, at
  -- most that number of jobs is listed as active, whatever the scans find and enqueue.
  pub run_loops-bounded :
      (es : List LoopEvent) (db : Db)
      → pos 0 ≤ℤ most
      → LimitsWithin most es
      → let q = (run_loops cfg env es (new_scanner (new_queue db))).queue in
        (length q.job_queue ≤ capacity) × (pos (length q.active_jobs) ≤ℤ most)
  run_loops-bounded es db h w =
      let start_bounded : IsBounded most (new_queue db) = record {
        capped = omega arith;
        few = h;
      } in
      let b : BoundedScanner (run_loops cfg env es (new_scanner (new_queue db))) =
        run_loops-IsBounded es (new_scanner (new_queue db)) w start_bounded in
      (b.capped, b.few)
