-- ===== src/Tests/MainRuns.antt =====
-- cmd/grabarr, the watcher of the configuration and the goroutines of a transfer, on concrete
-- values.
use grabarr.Common.{
  ◌≡◌, ◌≤◌, ◌≤ℤ◌, refl, true, false, none, some, List, [], ◌∷◌, ◌++◌, length, Text, codes, pos, ok,
  err, wrapped, arith,
}
use grabarr.Config.{Config, load_config, validate}
use grabarr.Config.Reload.{IsSound}
use grabarr.Config.Watch.{
  Platform, load, load_file, Shared, WatchEvent, file_event, watches, receives, watcher_error,
  watch_config, signal_at,
}
use grabarr.Config.Watch.Laws.{
  watch_config-signaled, watch_config-downloads, not_loaded, load-failed,
}
use grabarr.Models.Job.{JobProgress, no_progress}
use grabarr.Models.Job.Status.{JobStatus}
use grabarr.Repository.Jobs.{get_job, update_job}
use grabarr.Repository.Jobs.Laws.{status_of}
use grabarr.Queue.State.{Queue, capacity}
use grabarr.Queue.Lifetime
use grabarr.Queue.Lifetime.Stopping.{stop-status}
use grabarr.Queue.Events.{Event}
use grabarr.Main.{
  App, Host, works, reloads, wakes, queue_after, queue_stopped, context_canceled, server_shut_down,
  new_app, shut_down, run,
}
use grabarr.Main.Closing.{open_parts, run-closed}
use grabarr.Main.Bounds.{run-bounded}
use grabarr.Main.Shutdown.{alerts, shut_down-calls}
use grabarr.RsyncClient.{parse_progress_line}
use grabarr.RsyncClient.Goroutines.{Copying, Move, copy_started, run_moves}
use grabarr.RsyncClient.Goroutines.Laws.{
  run_moves-panics, run_moves-safe, run_moves-outcome, sent_outcomes,
}
use grabarr.Tests.Data.{quiet_world, settings, four_jobs, one_waits, broken}
use grabarr.Tests.OtherRuns.{configuration}
use grabarr.Tests.ApiRuns.{one_remote}
use grabarr.Tests.ServiceRuns.{formats, platform}
use grabarr.Notifications.{not_sent}

abbrev serving : Queue
serving = record one_waits { running = true }

stop-status_example :
    ((Lifetime.stop settings serving).0 ≡ ok tt)
    × (status_of 2 (Lifetime.stop settings serving).1.db ≡ some JobStatus.queued)
stop-status_example = stop-status settings (λ n. refl) serving 2 refl

-- The configuration with a notifier, of which two jobs are told: one that ran and one that waits.
abbrev noisy : Config
noisy = record one_remote {
  notifications = record { pushover = record one_remote.notifications.pushover { enabled = true } };
}

abbrev host : Host
host = record {
  variable = [];
  exists = λ path. true;
  read_config = λ path. ok one_remote;
  directories = ok tt;
  open_repository = λ path. ok four_jobs;
  world = quiet_world;
  gate = λ n size. true;
  format_time = λ t. [];
  errorf = λ format. format;
  formats = formats;
  http = λ r. not_sent broken;
  now = 5;
  steps = works Event.ticks ∷ reloads noisy ∷ wakes ∷ works Event.receives ∷ [];
  ending = [];
}

run-closed_example : open_parts (run host new_app).1.calls ≡ some []
run-closed_example = run-closed host

run-bounded_example :
    let q : Queue = (run host new_app).1.queue in
    (length q.job_queue ≤ capacity) × (pos (length q.active_jobs) ≤ℤ pos 2)
unfolding load_config validate
run-bounded_example = run-bounded host one_remote (pos 2) refl (omega arith) (omega arith, tt) tt

abbrev app : App
app = record new_app { queue = serving }

shut_down-calls_example :
    (shut_down host noisy configuration app).1.calls
    ≡ alerts host noisy 2 ++ context_canceled ∷ queue_stopped ∷ server_shut_down ∷ []
unfolding queue_after Lifetime.stop get_job update_job
shut_down-calls_example = shut_down-calls host noisy (λ n. refl) configuration app

abbrev system : Platform
system = record {
  read_file = λ path. ok [];
  expand_env = λ text. text;
  unmarshal = λ text. ok configuration;
  mkdir_all = λ path. none;
}

abbrev no_file : Platform
no_file = record system { read_file = λ path. err broken }

load-failed_example :
    ((load no_file (codes "/config.yaml") not_loaded).0
      ≡ (none, some (wrapped (codes "failed to read config file") broken)))
    × ((load system (codes "/other.yaml") (load no_file (codes "/config.yaml") not_loaded).1).0
        ≡ (none, none))
unfolding load_file
load-failed_example =
    load-failed no_file system (codes "/config.yaml") (codes "/other.yaml")
      (wrapped (codes "failed to read config file") broken) refl

abbrev shared : Shared
shared = record { config = configuration; watchers = false ∷ false ∷ [] }

watch_config-signaled_example :
    signal_at 1
      (watch_config
        (codes "/config/config.yaml")
        (file_event (codes "/config/config.yaml") true false system
          ∷ receives 0
          ∷ watcher_error broken
          ∷ [])
        shared).watchers
    ≡ true
unfolding load_file validate
watch_config-signaled_example =
    watch_config-signaled (codes "/config/config.yaml") 1 (codes "/config/config.yaml") true false
      system configuration shared (receives 0 ∷ watcher_error broken ∷ []) refl refl refl (refl, tt)

configuration-IsSound : IsSound configuration
configuration-IsSound = record {
  port_low = omega arith;
  port_high = omega arith;
  limit = omega arith;
  retries = omega arith;
  token = λ e. absurd (ground (arith, e));
  user = λ e. absurd (ground (arith, e));
}

abbrev changes : List WatchEvent
changes =
    file_event (codes "/config/config.yaml") false true (record system {
      unmarshal = λ text. ok (record configuration {
        downloads = record { local_path = codes "/new"; allowed_categories = [] };
      });
    })
    ∷ watches
    ∷ []

watch_config-downloads_example :
    IsSound (watch_config (codes "/config/config.yaml") changes shared).config
    × ((watch_config (codes "/config/config.yaml") changes shared).config.downloads
        ≡ configuration.downloads)
watch_config-downloads_example =
    watch_config-downloads (codes "/config/config.yaml") configuration changes shared
      configuration-IsSound refl

abbrev output : Text
output = codes "8,745 21% 10.26MB/s 0:51:13"

abbrev started : Copying
started = copy_started output 0

abbrev first_report : JobProgress
first_report = record no_progress {
  percentage = 21;
  transferred_bytes = pos 8745;
  transfer_speed = pos 1048576;
  eta = some 3073000000000;
  last_update_time = 1;
}

run_moves-panics_example :
    (run_moves platform none
      (Move.exits 1 ∷ Move.advances ∷ Move.takes ∷ Move.sends ∷ [])
      started).panicked
    ≡ true
unfolding copy_started parse_progress_line
run_moves-panics_example =
    run_moves-panics platform none started 1 output [] first_report refl refl refl refl refl

run_moves-safe_example :
    (run_moves platform none
      (Move.takes ∷ Move.sends ∷ Move.exits 0 ∷ Move.advances ∷ Move.takes ∷ [])
      started).panicked
    ≡ false
unfolding run_moves copy_started
run_moves-safe_example =
    run_moves-safe platform none
      (Move.takes ∷ Move.sends ∷ Move.exits 0 ∷ Move.advances ∷ Move.takes ∷ []) output 0
      (refl, refl, tt)

run_moves-outcome_example :
    let s : Copying =
      run_moves platform
        (some broken)
        (Move.exits 0 ∷ Move.advances ∷ Move.advances ∷ Move.advances ∷ [])
        started in
    (s.done_chan ≡ sent_outcomes platform (some broken) s.waiter)
    × (length s.transfer_state.progress_chan ≤ 10)
run_moves-outcome_example =
    run_moves-outcome platform (some broken)
      (Move.exits 0 ∷ Move.advances ∷ Move.advances ∷ Move.advances ∷ []) output 0
