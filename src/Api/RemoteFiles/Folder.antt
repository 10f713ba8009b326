-- ===== src/Api/RemoteFiles/Folder.antt =====
-- internal/api/remote_files.go: QueueFolder, and the files of a folder that are still on the seedbox.
use grabarr.Common.{
  ℕ, suc, map, lower, has_prefix, ◌≡◌, Bool, true, false, ◌&&◌, ◌||◌, ◌==◌, some, List, [], ◌∷◌,
  ◌++◌, if◌then◌else◌, any, ltb, All, Text, codes, ◌=t◌, contains, trim_prefix, Result, ok, err,
}
use grabarr.Config.{Config}
use grabarr.Models.Job.{Job}
use grabarr.Models.RemoteFile.{FileStatus, file_status_eq, RemoteFile}
use grabarr.Repository.Files.{get_remote_files_by_path_prefix, link_remote_file_to_job}
use grabarr.Repository.Files.Like.{like}
use grabarr.Queue.State.{Queue, Env, on_db}
use grabarr.Queue.Ops.{enqueue}
use grabarr.Api.Response.{ApiResponse, Handler, write_success, write_error, respond, or_error}
use grabarr.Api.RemoteFiles.{file_job}

pub record QueueFolderRequest : Type 0 where
  pub watched_path : Text
  pub folder_path : Text

pub record QueueFolderResponse : Type 0 where
  pub queued : ℕ
  pub failed : ℕ

module _ (cfg : Config) (env : Env) where
  -- A job that could not be linked counts as queued.
  abbrev link_queued :
      RemoteFile → Result Job → QueueFolderResponse → Queue → QueueFolderResponse × Queue
  link_queued rf (err e) t q = (record t { failed = suc t.failed }, q)
  link_queued rf (ok saved) t q =
      let link = on_db (link_remote_file_to_job env.world rf.id saved.id FileStatus.queued) in
      (record t { queued = suc t.queued }, (link q).1)

  abbrev queue_one : RemoteFile → QueueFolderResponse → Queue → QueueFolderResponse × Queue
  queue_one rf t q = let (r, q') = enqueue env (file_job cfg rf) q in link_queued rf r t q'

  -- The loop of QueueFolder.
  unfoldable pub queue_files :
      List RemoteFile → QueueFolderResponse → Queue → QueueFolderResponse × Queue
  unfolding file_job
  queue_files [] t q = (t, q)
  queue_files (rf ∷ rfs) t q = let (t', q') = queue_one rf t q in queue_files rfs t' q'

  abbrev folder_response : QueueFolderResponse → ApiResponse QueueFolderResponse
  folder_response t =
      if t.queued == 0 && ltb 0 t.failed
      then write_error 500 (codes "failed to queue any files")
      else write_success 200 (some t) []

  abbrev queue_listed : List RemoteFile → Handler Queue QueueFolderResponse
  queue_listed files q =
      let (t, q') = queue_files files (record { queued = 0; failed = 0 }) q in
      (folder_response t, q')

  -- `body` is what the JSON decoder made of the request.
  unfoldable pub queue_folder : Result QueueFolderRequest → Handler Queue QueueFolderResponse
  unfolding queue_files
  queue_folder (err e) = respond (write_error 400 (codes "invalid request body"))
  queue_folder (ok req) =
      if req.watched_path =t [] || req.folder_path =t []
      then respond (write_error 400 (codes "watched_path and folder_path are required"))
      else if contains req.folder_path (codes "..") || contains req.watched_path (codes "..")
      then respond (write_error 400 (codes "invalid path"))
      else or_error
          (on_db (get_remote_files_by_path_prefix env.world req.watched_path req.folder_path)) 500
          (codes "failed to list files in folder") queue_listed

-- A file that GetRemoteFilesByPathPrefix returns.
abbrev pub in_folder : QueueFolderRequest → RemoteFile → Bool
in_folder req f =
    like (req.watched_path ++ trim_prefix req.folder_path (codes "/") ++ codes "%") f.remote_path
    && file_status_eq f.status FileStatus.on_seedbox

abbrev is_listed : List RemoteFile → RemoteFile → Bool
is_listed fs f = any (λ g. g.id == f.id) fs

-- Whatever is in the folder is still to be queued.
abbrev IsCovered : QueueFolderRequest → List RemoteFile → List RemoteFile → Type 0
IsCovered req rest fs = All (λ f. in_folder req f ≡ true → is_listed rest f ≡ true) fs

-- The start of the paths that are asked for: the two parts put together, without a slash that leads
-- the second.
abbrev pub start_of : QueueFolderRequest → Text
start_of req = req.watched_path ++ trim_prefix req.folder_path (codes "/")

-- A file on the seedbox whose path starts so, where the case of ASCII letters is no matter.
abbrev pub starts_so : QueueFolderRequest → RemoteFile → Bool
starts_so req f =
    has_prefix (map lower f.remote_path) (map lower (start_of req))
    && file_status_eq f.status FileStatus.on_seedbox

-- A text without the wildcards of LIKE.
abbrev pub IsPlain : Text → Type 0
IsPlain t = All (λ c. ((c == b'%') ≡ false) × ((c == b'_') ≡ false)) t
