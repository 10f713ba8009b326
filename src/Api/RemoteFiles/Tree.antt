-- ===== src/Api/RemoteFiles/Tree.antt =====
-- internal/api/remote_files.go: GetRemoteFileTree. The source finds a folder's node by its path in a
-- map; here the search goes down from the root, to the same node.
pub mod Stats
pub mod Response
use grabarr.Common.{
  ℕ, suc, ◌+◌, Bool, true, false, ◌&&◌, ◌||◌, ◌==◌, Option, none, some, List, [], ◌∷◌, ◌++◌,
  if◌then◌else◌, select, sort_by, any, drop, length, ℤ, pos, add_int64, Text, codes, ◌=t◌, text_ltb,
  has_prefix, has_suffix, take, base, dir, split, clean_elements, Result, ok, err,
}
use grabarr.Config.{Config, RemoteConfig, WatchedPath}
use grabarr.Models.Job.{Time, Job}
use grabarr.Models.Job.Status.{JobStatus, status_eq}
use grabarr.Models.RemoteFile.{FileStatus, file_status_eq, RemoteFile}

pub record TreeFolderStats : Type 0 where
  pub file_count : ℕ
  pub total_bytes : ℤ
  pub downloaded : ℕ
  pub queued : ℕ
  pub downloading : ℕ
  pub failed : ℕ
  pub on_seedbox : ℕ
  pub ignored : ℕ

pub record TreeFileProgress : Type 0 where
  pub job_id : ℕ
  pub job_status : JobStatus
  pub percentage : ℕ
  pub transfer_speed : ℤ
  pub transferred_bytes : ℤ
  pub total_bytes : ℤ
  pub eta : Option Time
  pub error_message : Text
  pub created_at : Time
  pub started_at : Option Time
  pub completed_at : Option Time

pub record TreeFile : Type 0 where
  pub name : Text
  pub path : Text
  pub id : ℕ
  pub size_bytes : ℤ
  pub status : FileStatus
  pub progress : Option TreeFileProgress

mutual
  pub data TreeNode : Type 0 where
    file : TreeFile → TreeNode
    folder : (name path : Text) → (children : TreeNodes) → TreeNode

  -- The children of a folder, in their order.
  pub data TreeNodes : Type 0 where
    no_nodes : TreeNodes
    node : TreeNode → TreeNodes → TreeNodes

abbrev pub add_last : TreeNode → TreeNodes → TreeNodes
add_last n no_nodes = node n no_nodes
add_last n (node m ms) = node m (add_last n ms)

-- The change of the child folder of a name; a folder that is not there is made at the end.
abbrev pub change_folder : (name path : Text) → (TreeNodes → TreeNodes) → TreeNodes → TreeNodes
change_folder name path change no_nodes = node (folder name path (change no_nodes)) no_nodes
change_folder name path change (node (file f) rest) =
    node (file f) (change_folder name path change rest)
change_folder name path change (node (folder n p children) rest) =
    if n =t name
    then node (folder n p (change children)) rest
    else node (folder n p children) (change_folder name path change rest)

-- `ensureFolder`, and the file at the end of the folder's children. `prefix` is the path so far.
unfoldable pub insert_file :
    (prefix : Text) → (folders : List Text) → TreeFile → TreeNodes → TreeNodes
insert_file prefix [] f children = add_last (file f) children
insert_file prefix (name ∷ names) f children =
    change_folder name (prefix ++ codes "/" ++ name)
      (insert_file (prefix ++ codes "/" ++ name) names f) children

abbrev pub is_failed : Option TreeFileProgress → Bool
is_failed none = false
is_failed (some p) = status_eq p.job_status JobStatus.failed

abbrev one_if : Bool → ℕ
one_if true = 1
one_if false = 0

abbrev counts_as : FileStatus → TreeFile → ℕ
counts_as status f = if is_failed f.progress then 0 else one_if (file_status_eq f.status status)

-- What a file adds to the counts of the folders above it.
abbrev pub file_stats : TreeFile → TreeFolderStats
file_stats f = record {
  file_count = 1;
  total_bytes = f.size_bytes;
  downloaded = counts_as FileStatus.downloaded f;
  queued = counts_as FileStatus.queued f;
  downloading = counts_as FileStatus.downloading f;
  failed = one_if (is_failed f.progress);
  on_seedbox = counts_as FileStatus.on_seedbox f;
  ignored = counts_as FileStatus.ignored f;
}

abbrev pub no_stats : TreeFolderStats
no_stats = record {
  file_count = 0;
  total_bytes = pos 0;
  downloaded = 0;
  queued = 0;
  downloading = 0;
  failed = 0;
  on_seedbox = 0;
  ignored = 0;
}

abbrev pub add_stats : TreeFolderStats → TreeFolderStats → TreeFolderStats
add_stats a b = record {
  file_count = a.file_count + b.file_count;
  total_bytes = add_int64 a.total_bytes b.total_bytes;
  downloaded = a.downloaded + b.downloaded;
  queued = a.queued + b.queued;
  downloading = a.downloading + b.downloading;
  failed = a.failed + b.failed;
  on_seedbox = a.on_seedbox + b.on_seedbox;
  ignored = a.ignored + b.ignored;
}

-- The stats of a folder, from its children.
unfoldable pub rollup : TreeNodes → TreeFolderStats
rollup no_nodes = no_stats
rollup (node (file f) rest) = add_stats (file_stats f) (rollup rest)
rollup (node (folder name path children) rest) = add_stats (rollup children) (rollup rest)

abbrev pub find_job_in : ℕ → List (ℕ × Job) → Option Job
find_job_in id [] = none
find_job_in id ((k, j) ∷ rest) = if k == id then some j else find_job_in id rest

abbrev job_progress : Option Job → Option TreeFileProgress
job_progress none = none
job_progress (some j) = some (record {
  job_id = j.id;
  job_status = j.status;
  percentage = j.progress.percentage;
  transfer_speed = j.progress.transfer_speed;
  transferred_bytes = j.progress.transferred_bytes;
  total_bytes = j.progress.total_bytes;
  eta = j.progress.eta;
  error_message = j.error_message;
  created_at = j.created_at;
  started_at = j.started_at;
  completed_at = j.completed_at;
})

-- The path of a file below the watched path, with a slash in front.
abbrev pub relative_path : (watched_path remote_path : Text) → Text
relative_path watched_path remote_path =
    let rel =
      if has_prefix remote_path watched_path
      then drop (length watched_path) remote_path
      else remote_path in
    if has_prefix rel (codes "/") then rel else codes "/" ++ rel

abbrev pub file_node : Text → List (ℕ × Job) → RemoteFile → TreeFile
file_node watched_path jobs rf = record {
  name = rf.name;
  path = relative_path watched_path rf.remote_path;
  id = rf.id;
  size_bytes = rf.size;
  status = rf.status;
  progress = elim rf.job_id [ none ↦ none | some id ↦ job_progress (find_job_in id jobs) ];
}

-- The elements of a directory's path.
abbrev pub folders_of : Text → List Text
folders_of path = clean_elements true [] (split b'/' (dir path))

unfoldable pub insert_files : Text → List (ℕ × Job) → List RemoteFile → TreeNodes → TreeNodes
unfolding insert_file
insert_files watched_path jobs [] nodes = nodes
insert_files watched_path jobs (rf ∷ rfs) nodes = insert_files watched_path jobs rfs (
    insert_file [] (folders_of (relative_path watched_path rf.remote_path))
      (file_node watched_path jobs rf) nodes)

pub record TreeRoot : Type 0 where
  pub watched_path : Text
  pub name : Text
  pub path : Text
  pub stats : TreeFolderStats
  pub children : TreeNodes

abbrev pred_length : Text → ℕ
pred_length [] = 0
pred_length (c ∷ s) = length s

-- `strings.TrimSuffix(s, "/")`
abbrev trim_slash : Text → Text
trim_slash s = if has_suffix s (codes "/") then take (pred_length s) s else s

abbrev root_name : (watched_path display_name : Text) → Text
root_name watched_path display_name =
    let name = if display_name =t [] then base (trim_slash watched_path) else display_name in
    if name =t [] || name =t codes "." then watched_path else name

unfoldable pub build_file_tree :
    (watched_path display_name : Text) → List RemoteFile → List (ℕ × Job) → TreeRoot
unfolding insert_files rollup
build_file_tree watched_path display_name files jobs =
    let children = insert_files watched_path jobs files no_nodes in
    record {
      watched_path = watched_path;
      name = root_name watched_path display_name;
      path = codes "/";
      stats = rollup children;
      children = children;
    }
