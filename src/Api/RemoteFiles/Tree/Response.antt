-- ===== src/Api/RemoteFiles/Tree/Response.antt =====
-- internal/api/remote_files.go: the answer of GetRemoteFileTree, a root for each watched path.
use grabarr.Common.{
  ℕ, Option, none, some, List, [], ◌∷◌, if◌then◌else◌, select, pos, Text, codes, ◌=t◌, text_ltb,
  Result, ok, err,
}
use grabarr.Config.{Config, RemoteConfig, WatchedPath}
use grabarr.Models.Job.{Time, Job}
use grabarr.Models.RemoteFile.{FileStatus, RemoteFile, RemoteFileFilter}
use grabarr.Repository.Files
use grabarr.Queue.State.{Queue, Env, on_db}
use grabarr.Queue.Ops
use grabarr.Api.Response.{Handler, write_success, or_error}
use grabarr.Api.Jobs.{at_time}
use grabarr.Api.RemoteFiles.{find_in}
use grabarr.Api.RemoteFiles.Tree.{TreeRoot, build_file_tree}

pub record TreeResponse : Type 0 where
  pub scanned_at : Time
  pub roots : List TreeRoot

abbrev all_files : RemoteFileFilter
all_files = record {
  status = FileStatus.any_status;
  watched_path = [];
  extension = [];
  limit = pos 50000;
  offset = pos 0;
}

-- The watched paths of the files in the order of `sort.Strings`, each once.
abbrev insert_path : Text → List Text → List Text
insert_path path [] = path ∷ []
insert_path path (p ∷ ps) =
    if path =t p then p ∷ ps else if text_ltb path p then path ∷ p ∷ ps else p ∷ insert_path path ps

unfoldable pub watched_paths_of : List RemoteFile → List Text
watched_paths_of [] = []
watched_paths_of (f ∷ fs) = insert_path f.watched_path (watched_paths_of fs)

abbrev name_if : Text → Option WatchedPath → Text → Text
name_if name none rest = rest
name_if name (some wp) rest = name

unfoldable pub find_watched_path_remote_name : List RemoteConfig → Text → Text
find_watched_path_remote_name [] path = []
find_watched_path_remote_name (r ∷ rs) path =
    name_if r.name (find_in path r.watched_paths) (find_watched_path_remote_name rs path)

module _ (env : Env) where
  abbrev with_job : ℕ → Result Job → List (ℕ × Job) → List (ℕ × Job)
  with_job id (ok j) jobs = (id, j) ∷ jobs
  with_job id (err e) jobs = jobs

  abbrev fetch_job : Option ℕ → List (ℕ × Job) → Queue → List (ℕ × Job) × Queue
  fetch_job none jobs q = (jobs, q)
  fetch_job (some id) jobs q = let (r, q') = Ops.get_job env id q in (with_job id r jobs, q')

  -- The jobs of the files, as far as they are found.
  unfoldable pub fetch_jobs : List RemoteFile → List (ℕ × Job) → Queue → List (ℕ × Job) × Queue
  fetch_jobs [] jobs q = (jobs, q)
  fetch_jobs (f ∷ fs) jobs q = let (jobs', q') = fetch_job f.job_id jobs q in fetch_jobs fs jobs' q'

  module _ (cfg : Config) (files : List RemoteFile) where
    unfoldable pub roots_of : List Text → Queue → List TreeRoot × Queue
    unfolding fetch_jobs build_file_tree find_watched_path_remote_name
    roots_of [] q = ([], q)
    roots_of (wp ∷ wps) q =
        let of_path = select (λ f. f.watched_path =t wp) files in
        let (jobs, q1) = fetch_jobs of_path [] q in
        let (rest, q2) = roots_of wps q1 in
        (build_file_tree wp (find_watched_path_remote_name cfg.remotes wp) of_path jobs ∷ rest, q2)

  abbrev or_now : Time → Option Time → Time
  or_now now none = now
  or_now now (some t) = t

  abbrev tree_response : Config → Option Time → List RemoteFile → Time → Handler Queue TreeResponse
  tree_response cfg last_scan_at files now q =
      let (roots, q') = roots_of cfg files (watched_paths_of files) q in
      (
        write_success 200 (some (record { scanned_at = or_now now last_scan_at; roots = roots }))
            [],
        q',
      )

  -- `last_scan_at` is the scanner's, if there is one and it has scanned.
  unfoldable pub get_remote_file_tree :
      Config → (last_scan_at : Option Time) → Handler Queue TreeResponse
  unfolding roots_of watched_paths_of
  get_remote_file_tree cfg last_scan_at =
      or_error (on_db (Files.get_remote_files env.world all_files)) 500
        (codes "failed to list remote files")
        (λ files. at_time env (tree_response cfg last_scan_at files))
