-- ===== src/Api/RemoteFiles/Scan.antt =====
-- internal/api/remote_files.go: TriggerScan and GetSyncStatus. The goroutine that TriggerScan starts
-- is a value beside its answer; it scans with one of the two contexts that the handler has.
use grabarr.Common.{
  ℕ, ◌≡◌, refl, Bool, true, false, Option, none, some, List, [], ◌∷◌, map, ℤ, Text, codes, Error,
  err, Action, ◌++◌, arith,
}
use grabarr.Config.{Config, WatchedPath, RemoteConfig}
use grabarr.Models.Job.{Time}
use grabarr.Queue.State.{Env}
use grabarr.Sync.Listing.{Seedbox}
use grabarr.Sync.Scanner.{Scanner, ScanStatus, all_paths, scan_paths, run_scan, scan_now}
use grabarr.Api.Response.{ApiResponse, write_success, write_error}

-- A context, as the answers of `Err` by the number of the question.
abbrev pub Context : Type 0
Context = ℕ → Option Error

-- The contexts that the handler has: the request's, `r.Context()`, and `context.Background()`.
pub record Contexts : Type 0 where
  pub request : Context
  pub background : Context

-- ScanNow with a context.
abbrev pub scan_with : Context → Config → Seedbox → Env → Action Scanner Unit
scan_with ctx cfg box env = scan_now cfg (record box { ctx_err = ctx }) env

unfoldable pub trigger_scan :
    Contexts
    → Config
    → Seedbox
    → Env
    → (has_scanner : Bool) → ApiResponse Unit × Option (Action Scanner Unit)
trigger_scan ctxs cfg box env false = (write_error 503 (codes "scanner not configured"), none)
trigger_scan ctxs cfg box env true =
    (write_success 202 none (codes "scan started"), some (scan_with ctxs.request cfg box env))

pub record WatchedPathResponse : Type 0 where
  pub remote_path : Text
  pub extensions : List Text
  pub exclude_patterns : List Text
  pub auto_download : Bool
  pub recursive : Bool

pub record SyncStatusResponse : Type 0 where
  pub enabled : Bool
  pub scan_interval : Text
  pub last_scan_at : Option Time
  pub files_found : ℕ
  pub scan_in_flight : Bool
  pub error : Text
  pub watched_paths : List WatchedPathResponse

abbrev shown : WatchedPath → WatchedPathResponse
shown wp = record {
  remote_path = wp.remote_path;
  extensions = wp.extensions;
  exclude_patterns = wp.exclude_patterns;
  auto_download = wp.auto_download;
  recursive = wp.recursive;
}

abbrev shown_paths : List RemoteConfig → List WatchedPathResponse
shown_paths [] = []
shown_paths (r ∷ rs) = map shown r.watched_paths ++ shown_paths rs

abbrev no_status : ScanStatus
no_status = record { last_scan_at = none; files_found = 0; scan_in_flight = false; error = [] }

abbrev or_no_status : Option ScanStatus → ScanStatus
or_no_status none = no_status
or_no_status (some st) = st

-- `show` is `Duration.String`. There is no status where there is no scanner.
unfoldable pub get_sync_status :
    Config → (show : ℤ → Text) → Option ScanStatus → ApiResponse SyncStatusResponse
get_sync_status cfg show status =
    let st = or_no_status status in
    write_success 200
      (some (record {
        enabled = cfg.sync.enabled;
        scan_interval = show cfg.sync.scan_interval;
        last_scan_at = st.last_scan_at;
        files_found = st.files_found;
        scan_in_flight = st.scan_in_flight;
        error = st.error;
        watched_paths = shown_paths cfg.remotes;
      }))
      []

module _ (cfg : Config) (box : Seedbox) (env : Env) where
  -- The scan that TriggerScan starts runs on the request's context, which is done once the answer is
  -- sent, and not on the background one, which is never done. Where it is done before the first path, and a path is configured and no scan runs, the
  -- answer says 202, but the scan ends with the context's error: it lists nothing, changes no row, and
  -- leaves the time of the last scan and the number of files as they were.
  pub trigger_scan-canceled :
      (ctxs : Contexts) (s : Scanner) (e : Error) (first : RemoteConfig × WatchedPath)
      (rest : List (RemoteConfig × WatchedPath))
      → ctxs.request s.asked ≡ some e
      → all_paths cfg box env cfg.remotes ≡ first ∷ rest
      → s.status.scan_in_flight ≡ false
      → let (r, goroutine) = trigger_scan ctxs cfg box env true in
        (r.code ≡ 202)
        × (m : Action Scanner Unit) × (goroutine ≡ some m)
        × ((m s).0 ≡ err e)
        × ((m s).1.queue.db.jobs ≡ s.queue.db.jobs)
        × ((m s).1.queue.db.files ≡ s.queue.db.files)
        × ((m s).1.status ≡ s.status)
  unfolding trigger_scan scan_now run_scan scan_paths
  trigger_scan-canceled ctxs s e first rest done paths free = (
    refl,
    scan_with ctxs.request cfg box env,
    refl,
    ground (arith, done, paths, free),
    ground (arith, done, paths, free),
    ground (arith, done, paths, free),
    ground (arith, done, paths, free),
  )
