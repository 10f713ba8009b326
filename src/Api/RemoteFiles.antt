-- ===== src/Api/RemoteFiles.antt =====
-- internal/api/remote_files.go: the handlers of the seedbox's files.
pub mod Queueing
pub mod Folder
pub mod Scan
pub mod Tree
use grabarr.Common.{
  ℕ, suc, ◌+◌, ◌-◌, ◌/◌, ◌%◌, ◌^◌, Bool, true, false, not, ◌&&◌, ◌||◌, ◌==◌, Option, none, some,
  List, [], ◌∷◌, ◌++◌, if◌then◌else◌, map, length, drop, ltb, ℤ, pos, eq_ℤ, to_int64, div_int,
  pos_part, Text, codes, ◌=t◌, has_prefix, contains, dir, join, Result, ok, err, Action,
}
use grabarr.Config.{Config, WatchedPath, RemoteConfig}
use grabarr.Models.Job.{Time, Job, new_job}
use grabarr.Models.Job.Status.{JobStatus}
use grabarr.Models.RemoteFile.{FileStatus, file_status_eq, RemoteFile, RemoteFileFilter}
use grabarr.Repository.Files
use grabarr.Queue.State.{Queue, Env, on_db}
use grabarr.Queue.Ops
use grabarr.Sync.Listing.{Seedbox, parse_int}
use grabarr.Sync.Scanner.{Scanner, ScanStatus, scan_now}
use grabarr.Api.Response.{
  PaginationMeta, ApiResponse, Handler, write_success, write_success_with_pagination, write_error,
  respond, answer, or_error,
}
use grabarr.Api.Query.{UrlQuery, file_filter}

-- The pages of ListRemoteFiles, whose limit has no bound but that of an `int`.
abbrev pub file_page_count : (total limit : ℕ) → ℤ
file_page_count total limit =
    let pages = div_int (to_int64 (total + limit - 1)) limit in
    if eq_ℤ pages (pos 0) then pos 1 else pages

-- Limit and offset are not negative: `file_filter` sees to it.
unfoldable pub file_pagination : RemoteFileFilter → (total : ℕ) → PaginationMeta
file_pagination filter total = record {
  total = pos total;
  limit = filter.limit;
  offset = filter.offset;
  total_pages = file_page_count total (pos_part filter.limit);
  page = pos (pos_part filter.offset / pos_part filter.limit + 1);
}

unfoldable pub local_path_for_remote_file : (remote_path watched_path base : Text) → Text
local_path_for_remote_file remote_path watched_path base =
    let rel =
      if has_prefix remote_path watched_path
      then drop (length watched_path) remote_path
      else remote_path in
    if dir rel =t codes "." || dir rel =t [] then base else join base (dir rel) ++ codes "/"

abbrev find_in : Text → List WatchedPath → Option WatchedPath
find_in path [] = none
find_in path (wp ∷ wps) = if wp.remote_path =t path then some wp else find_in path wps

unfoldable pub find_watched_path : List RemoteConfig → Text → Option WatchedPath
find_watched_path [] path = none
find_watched_path (r ∷ rs) path = elim (find_in path r.watched_paths) [
  | some wp ↦ some wp
  | none ↦ find_watched_path rs path
]

abbrev base_for : Config → Option WatchedPath → Text
base_for cfg none = cfg.downloads.local_path
base_for cfg (some wp) = if wp.local_path =t [] then cfg.downloads.local_path else wp.local_path

-- The job that QueueRemoteFile and QueueFolder make of a file.
unfoldable pub file_job : Config → RemoteFile → Job
unfolding local_path_for_remote_file find_watched_path
file_job cfg rf = record new_job {
  name = rf.name;
  remote_path = rf.remote_path;
  local_path =
      local_path_for_remote_file rf.remote_path rf.watched_path
        (base_for cfg (find_watched_path cfg.remotes rf.watched_path));
  status = JobStatus.queued;
  priority = pos 0;
  max_retries = cfg.jobs.max_retries;
  file_size = rf.size;
}

abbrev parsed : {D : Type 0} → (ℕ → Handler Queue D) → Option ℤ → Handler Queue D
parsed rest none q = (write_error 400 (codes "invalid file ID"), q)
parsed rest (some n) q = rest (pos_part n) q

-- The route has `{id:[0-9]+}`: the id has no sign.
abbrev with_file_id : {D : Type 0} → Text → (ℕ → Handler Queue D) → Handler Queue D
with_file_id id rest = parsed rest (parse_int id)

abbrev pub is_busy : RemoteFile → Bool
is_busy rf =
    file_status_eq rf.status FileStatus.queued || file_status_eq rf.status FileStatus.downloading

abbrev file_page : RemoteFileFilter → List RemoteFile → ℕ → Handler Queue (List RemoteFile)
file_page filter files total =
    respond (write_success_with_pagination 200 files (file_pagination filter total) [])

module _ (env : Env) where
  abbrev file_count : RemoteFileFilter → List RemoteFile → Handler Queue (List RemoteFile)
  file_count filter files =
      or_error (on_db (Files.count_remote_files env.world filter)) 500
        (codes "failed to count remote files") (file_page filter files)

  unfoldable pub list_remote_files : UrlQuery → Handler Queue (List RemoteFile)
  unfolding file_filter file_pagination
  list_remote_files query =
      or_error (on_db (Files.get_remote_files env.world (file_filter query))) 500
        (codes "failed to list remote files") (file_count (file_filter query))

  abbrev set_status : (id : Text) → FileStatus → (failed done : Text) → Handler Queue Unit
  set_status id status failed done = with_file_id id (λ n.
      or_error (on_db (Files.update_remote_file_status env.world n status)) 500 failed
        (λ _. respond (write_success 200 none done)))

  unfoldable pub ignore_remote_file : (id : Text) → Handler Queue Unit
  unfolding parse_int
  ignore_remote_file id =
      set_status id FileStatus.ignored (codes "failed to ignore file")
        (codes "file marked as ignored")

  unfoldable pub restore_remote_file : (id : Text) → Handler Queue Unit
  unfolding parse_int
  restore_remote_file id =
      set_status id FileStatus.on_seedbox (codes "failed to restore file") (codes "file restored")

module _ (cfg : Config) (env : Env) where
  abbrev pub link_saved : RemoteFile → Job → Handler Queue Job
  link_saved rf saved =
      or_error (on_db (Files.link_remote_file_to_job env.world rf.id saved.id FileStatus.queued))
        500 (codes "failed to link file to job")
        (λ _. respond (write_success 201 (some saved) (codes "download queued")))

  abbrev pub queue_found : RemoteFile → Handler Queue Job
  queue_found rf =
      if is_busy rf
      then respond (write_error 409 (codes "file is already queued or downloading"))
      else or_error (Ops.enqueue env (file_job cfg rf)) 500 (codes "failed to enqueue job")
          (link_saved rf)

  -- QueueRemoteFile, from the id that the path has.
  unfoldable pub queue_file_id : ℕ → Handler Queue Job
  unfolding file_job
  queue_file_id n =
      or_error (on_db (Files.get_remote_file env.world n)) 404 (codes "remote file not found")
        queue_found

  unfoldable pub queue_remote_file : (id : Text) → Handler Queue Job
  unfolding queue_file_id parse_int
  queue_remote_file id = with_file_id id queue_file_id
