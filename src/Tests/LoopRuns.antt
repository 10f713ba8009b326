-- ===== src/Tests/LoopRuns.antt =====
-- internal/sync: the loops of the scanner with the queue, on concrete values.
use grabarr.Common.{◌≡◌, ◌≤◌, ◌≤ℤ◌, refl, some, List, [], ◌∷◌, length, pos, arith}
use grabarr.Repository.Files.{
  get_remote_files_linked_to_jobs, delete_stale_remote_files, get_stale_remote_files_with_jobs,
  get_remote_file_by_path, upsert_remote_file, update_remote_file_status,
}
use grabarr.Repository.Jobs
use grabarr.Queue.Ops
use grabarr.Queue.State.{capacity, new_queue}
use grabarr.Queue.Events.{Event}
use grabarr.Sync.Loops.{
  LoopEvent, scan_ticks, scan_requested, sync_ticks, of_queue, new_scanner, run_loops,
}
use grabarr.Sync.Loops.Limit.{run_loops-bounded}
use grabarr.Tests.Data.{broken, four_jobs, settings}
use grabarr.Tests.OtherRuns.{seedbox}
use grabarr.Tests.ApiRuns.{one_remote}

-- A scan finds a file and enqueues its download, which then runs and is cancelled.
abbrev loop_events : List LoopEvent
loop_events =
    of_queue one_remote Event.sets_executor
    ∷ of_queue one_remote Event.starts
    ∷ scan_ticks one_remote seedbox
    ∷ of_queue one_remote Event.receives
    ∷ of_queue one_remote (Event.begins 1)
    ∷ sync_ticks
    ∷ of_queue one_remote (Event.cancels 1)
    ∷ scan_requested one_remote seedbox
    ∷ of_queue one_remote (Event.finishes 1 (some broken))
    ∷ []

-- The scan found the one file of the listing.
files_after_scan :
    length
      (run_loops one_remote settings
        (scan_ticks one_remote seedbox ∷ [])
        (new_scanner (new_queue four_jobs))).queue.db.files
    ≡ 1
unfolding run_loops get_remote_files_linked_to_jobs delete_stale_remote_files
    get_stale_remote_files_with_jobs get_remote_file_by_path upsert_remote_file Ops.get_job
    Jobs.get_job update_remote_file_status
files_after_scan = refl

run_loops-bounded_example :
    let q = (run_loops one_remote settings loop_events (new_scanner (new_queue four_jobs))).queue in
    (length q.job_queue ≤ capacity) × (pos (length q.active_jobs) ≤ℤ pos 2)
run_loops-bounded_example =
    run_loops-bounded one_remote settings (pos 2) loop_events four_jobs (omega arith)
      (omega arith, (omega arith, (omega arith, (omega arith, (omega arith, (omega arith, tt))))))
