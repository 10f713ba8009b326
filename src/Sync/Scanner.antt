-- ===== src/Sync/Scanner.antt =====
-- internal/sync/scanner.go: scans as calls of the repository and the queue. A scan runs here without
-- the steps of other goroutines in between.
pub mod Laws
use grabarr.Common.{
  ℕ, suc, ◌+◌, Bool, true, false, not, ◌&&◌, Option, none, some, List, [], ◌∷◌, ◌++◌, if◌then◌else◌,
  length, ℤ, pos, Text, codes, ◌=t◌, Error, plain, wrapped, error_text, Result, ok, err, Action,
  pure, fail, get, modify, attempt, logged, or_wrap, for_each, ◌>>=◌, ◌>>◌,
}
use grabarr.Archive.{is_archive, group_key}
use grabarr.Config.{Config, WatchedPath, RemoteConfig}
use grabarr.Models.Job.{Time, Job, string, new_job, no_metadata, is_completed}
use grabarr.Models.Job.Status.{JobStatus}
use grabarr.Models.RemoteFile.{FileStatus, file_status_eq, RemoteFile}
use grabarr.Repository.Db.{Db, time_now}
use grabarr.Repository.Files.{
  upsert_remote_file, get_remote_files_linked_to_jobs, get_remote_file_by_path,
  update_remote_file_status, link_remote_file_to_job, get_stale_remote_files_with_jobs,
  delete_stale_remote_files,
}
use grabarr.Queue.State.{Queue, Env, on_db}
use grabarr.Queue.Ops
use grabarr.Sync.Listing.{Seedbox, compile_patterns, ssh_list_files, local_path_for_remote_file}

pub record ScanStatus : Type 0 where
  pub last_scan_at : Option Time
  pub files_found : ℕ
  pub scan_in_flight : Bool
  pub error : Text

-- The scanner's own state, with the queue and the database that it works on. `asked` numbers the
-- calls of `ctx.Err()`.
pub record Scanner : Type 0 where
  pub queue : Queue
  pub status : ScanStatus
  pub asked : ℕ

abbrev pub on_queue : {A : Type 0} → Action Queue A → Action Scanner A
on_queue m s = let (r, q) = m s.queue in (r, record s { queue = q })

abbrev pub set_status : (ScanStatus → ScanStatus) → Action Scanner Unit
set_status f = modify (λ s. record s { status = f s.status })

-- `ctx.Err()`
abbrev pub ctx_err : Seedbox → Action Scanner (Option Error)
ctx_err box s = (ok (box.ctx_err s.asked), record s { asked = suc s.asked })

-- What is done where the context is done, and where it is not.
abbrev pub unless_done :
    {A : Type 0} → (Error → Action Scanner A) → Action Scanner A → Option Error → Action Scanner A
unless_done stop go_on none = go_on
unless_done stop go_on (some e) = stop e

unfoldable pub remote_file_status_from_job : JobStatus → FileStatus
remote_file_status_from_job JobStatus.queued = FileStatus.queued
remote_file_status_from_job JobStatus.pending = FileStatus.queued
remote_file_status_from_job JobStatus.running = FileStatus.downloading
remote_file_status_from_job JobStatus.completed = FileStatus.downloaded
remote_file_status_from_job JobStatus.failed = FileStatus.on_seedbox
remote_file_status_from_job JobStatus.cancelled = FileStatus.on_seedbox
remote_file_status_from_job JobStatus.unset = FileStatus.on_seedbox

-- The download that autoQueueNewFiles creates for a file.
unfoldable pub auto_job : Config → WatchedPath → RemoteFile → Job
unfolding local_path_for_remote_file is_archive group_key
auto_job cfg wp f =
    let base_local_path = if wp.local_path =t [] then cfg.downloads.local_path else wp.local_path in
    record new_job {
      name = f.name;
      remote_path = f.remote_path;
      local_path = local_path_for_remote_file f.remote_path wp.remote_path base_local_path;
      status = JobStatus.queued;
      max_retries = cfg.jobs.max_retries;
      file_size = f.size;
      metadata = record no_metadata {
        extra_fields =
            if is_archive f.name
            then (codes "archive_group", string (group_key f.remote_path)) ∷ []
            else [];
      };
    }

module _ (env : Env) where
  abbrev db : {A : Type 0} → Action Db A → Action Queue A
  db = on_db

  -- One round of the loop of SyncJobStatuses, from what GetJob gave.
  abbrev pub sync_with : RemoteFile → Result Job → Action Queue Unit
  sync_with rf (err e) = pure tt
  sync_with rf (ok j) =
      if file_status_eq (remote_file_status_from_job j.status) rf.status
      then pure tt
      else logged
          (on_db (update_remote_file_status env.world rf.id (remote_file_status_from_job j.status)))

  unfoldable pub sync_file : RemoteFile → Action Queue Unit
  unfolding remote_file_status_from_job
  sync_file rf = elim rf.job_id [
    | none ↦ pure tt
    | some id ↦ attempt (Ops.get_job env id) >>= sync_with rf
  ]

  unfoldable pub sync_job_statuses : Action Queue Unit
  unfolding sync_file
  sync_job_statuses =
      or_wrap (on_db (get_remote_files_linked_to_jobs env.world)) (codes "get linked remote files")
      >>= for_each sync_file

  -- One round of the loop of cancelJobsForStaleFiles.
  abbrev pub cancel_unfinished : ℕ → Result Job → Action Queue Unit
  cancel_unfinished id (err e) = pure tt
  cancel_unfinished id (ok j) = if is_completed j then pure tt else logged (Ops.cancel_job env id)

  abbrev pub cancel_for : RemoteFile → Action Queue Unit
  cancel_for rf = elim rf.job_id [
    | none ↦ pure tt
    | some id ↦ attempt (Ops.get_job env id) >>= cancel_unfinished id
  ]

  unfoldable pub cancel_jobs_for_stale_files : Text → Time → Action Queue Unit
  cancel_jobs_for_stale_files watched_path scan_start = logged (
      on_db (get_stale_remote_files_with_jobs env.world watched_path scan_start)
      >>= for_each cancel_for)

module _ (cfg : Config) (env : Env) where
  -- What autoQueueNewFiles does with a file, from the database's record of it.
  abbrev pub enqueue_existing : WatchedPath → RemoteFile → Option RemoteFile → Action Queue Unit
  enqueue_existing wp f none = pure tt
  enqueue_existing wp f (some existing) =
      if file_status_eq existing.status FileStatus.on_seedbox
      then (Ops.enqueue env (auto_job cfg wp f) >>= (λ saved.
          on_db (link_remote_file_to_job env.world existing.id saved.id FileStatus.queued)))
      else pure tt

  unfoldable pub auto_queue_file : WatchedPath → RemoteFile → Action Queue Unit
  unfolding auto_job
  auto_queue_file wp f =
      logged (on_db (get_remote_file_by_path env.world f.remote_path) >>= enqueue_existing wp f)

module _ (cfg : Config) (box : Seedbox) (env : Env) where
  -- A context that is done ends the loop.
  unfoldable pub auto_queue_new_files : WatchedPath → List RemoteFile → Action Scanner Unit
  unfolding auto_queue_file
  auto_queue_new_files wp [] = pure tt
  auto_queue_new_files wp (f ∷ fs) =
      ctx_err box
      >>= unless_done (λ _. pure tt)
          (on_queue (auto_queue_file cfg env wp f) >> auto_queue_new_files wp fs)

  -- The list of a watched path, or the error of its patterns or of ssh.
  unfoldable pub list_path : RemoteConfig → WatchedPath → Action Queue (List RemoteFile)
  unfolding compile_patterns ssh_list_files
  list_path remote wp = elim (compile_patterns box wp.exclude_patterns) [
    | err e ↦ fail (wrapped (codes "invalid exclude_patterns") e)
    | ok excludes ↦
        or_wrap (on_db (ssh_list_files box env.world remote wp excludes)) (codes "ssh list files")
  ]

  abbrev pub upsert_file : RemoteFile → Action Queue Unit
  upsert_file f = logged (on_db (upsert_remote_file env.world f))

  -- After the listing; returns the number of files.
  unfoldable pub reconcile : WatchedPath → Time → List RemoteFile → Action Scanner ℕ
  unfolding auto_queue_new_files cancel_jobs_for_stale_files
  reconcile wp scan_start files = do
    on_queue (for_each upsert_file files)
    if wp.auto_download then auto_queue_new_files wp files else pure tt
    on_queue (cancel_jobs_for_stale_files env wp.remote_path scan_start)
    on_queue (logged (on_db (delete_stale_remote_files env.world wp.remote_path scan_start)))
    pure (length files)

  unfoldable pub scan_path : RemoteConfig → WatchedPath → Time → Action Scanner ℕ
  unfolding list_path reconcile
  scan_path remote wp scan_start = on_queue (list_path remote wp) >>= reconcile wp scan_start

  -- The number of files of a path; an error is written to the status.
  abbrev pub count_found : Result ℕ → Action Scanner ℕ
  count_found (ok n) = pure n
  count_found (err e) = set_status (λ st. record st { error = error_text e }) >> pure 0

  -- The two loops of ScanNow, on the pairs of a remote and one of its watched paths. A context that
  -- is done ends the scan with its error.
  unfoldable pub scan_paths : List (RemoteConfig × WatchedPath) → Time → ℕ → Action Scanner ℕ
  unfolding scan_path
  scan_paths [] scan_start total = pure total
  scan_paths ((remote, wp) ∷ rest) scan_start total =
      ctx_err box
      >>= unless_done fail (do
        n ← attempt (scan_path remote wp scan_start) >>= count_found
        scan_paths rest scan_start (total + n))

  abbrev paths_of : RemoteConfig → List WatchedPath → List (RemoteConfig × WatchedPath)
  paths_of remote [] = []
  paths_of remote (wp ∷ wps) = (remote, wp) ∷ paths_of remote wps

  abbrev pub all_paths : List RemoteConfig → List (RemoteConfig × WatchedPath)
  all_paths [] = []
  all_paths (r ∷ rs) = paths_of r r.watched_paths ++ all_paths rs

  unfoldable pub run_scan : Action Scanner Unit
  unfolding scan_paths sync_job_statuses
  run_scan = do
    scan_start ← on_queue (on_db (time_now env.world))
    total ← scan_paths (all_paths cfg.remotes) scan_start 0
    logged (on_queue (sync_job_statuses env))
    now ← on_queue (on_db (time_now env.world))
    set_status (λ st. record st { last_scan_at = some now; files_found = total; error = [] })

  abbrev pub land : {A : Type 0} → Action Scanner A → Action Scanner A
  land m s =
      let (r, t) = m s in (r, record t { status = record t.status { scan_in_flight = false } })

  unfoldable pub scan_now : Action Scanner Unit
  unfolding run_scan
  scan_now s =
      if s.status.scan_in_flight
      then (err (plain (codes "scan already in progress")), s)
      else land run_scan (record s { status = record s.status { scan_in_flight = true } })
