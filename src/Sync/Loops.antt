-- ===== src/Sync/Loops.antt =====
-- internal/sync/scanner.go: the two loops that Start launches, with the requests of the API and the
-- events of the queue in any order. A tick's work is one step, and a loop whose context is done
-- ticks no more.
pub mod Kept
pub mod Scans
pub mod Limit
use grabarr.Common.{
  ℕ, Bool, true, false, none, some, List, [], ◌∷◌, if◌then◌else◌, ℤ, pos, leb_ℤ, Action, pure,
  logged,
}
use grabarr.Config.{Config}
use grabarr.Queue.State.{Queue, Env}
use grabarr.Queue.Events.{Event, handle}
use grabarr.Sync.Listing.{Seedbox}
use grabarr.Sync.Scanner.{Scanner, on_queue, sync_job_statuses, scan_now}

-- `New`
abbrev pub new_scanner : Queue → Scanner
new_scanner q = record {
  queue = q;
  status = record { last_scan_at = none; files_found = 0; scan_in_flight = false; error = [] };
  asked = 0;
}

-- In nanoseconds; five minutes where none is configured.
abbrev scan_interval_of : Config → ℤ
scan_interval_of cfg =
    if leb_ℤ cfg.sync.scan_interval (pos 0) then pos 300000000000 else cfg.sync.scan_interval

-- Each step has the configuration that is in force then, and a scan its own listing of the seedbox.
-- The first scan of the loop is a tick too.
pub data LoopEvent : Type 0 where
  scan_ticks scan_requested : Config → Seedbox → LoopEvent
  sync_ticks : LoopEvent
  of_queue : Config → Event → LoopEvent

-- The environment of a queue under a configuration; whether the notifier is enabled is fixed.
abbrev pub under : Env → Config → Env
under env now = record env { jobs = now.jobs; extraction = now.extraction }

-- The loops are there only if the configuration enables them when the scanner is started.
module _ (cfg : Config) (env : Env) where
  unfoldable pub step : LoopEvent → Action Scanner Unit
  unfolding scan_now sync_job_statuses
  step (scan_ticks now box) =
      if cfg.sync.enabled then logged (scan_now now box (under env now)) else pure tt
  step sync_ticks = if cfg.sync.enabled then logged (on_queue (sync_job_statuses env)) else pure tt
  step (scan_requested now box) = logged (scan_now now box (under env now))
  step (of_queue now e) = on_queue (handle (under env now) e)

  unfoldable pub run_loops : List LoopEvent → Scanner → Scanner
  unfolding step
  run_loops [] s = s
  run_loops (e ∷ es) s = run_loops es (step e s).1
