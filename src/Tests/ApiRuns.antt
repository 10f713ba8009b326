-- ===== src/Tests/ApiRuns.antt =====
-- internal/api: the handlers on concrete requests.
use grabarr.Common.{
  suc, ℕ, ◌≡◌, ◌⊎◌, ◌++◌, refl, true, none, some, [], ◌∷◌, List, codes, pos, ok, err, All, join_by,
  Action, canceled,
}
use grabarr.Common.Paths.Below.{elements, IsDown}
use grabarr.Config.{Config, RemoteConfig}
use grabarr.Models.Job.{Job, Time, no_metadata}
use grabarr.Models.RemoteFile.{FileStatus, RemoteFile}
use grabarr.Repository.Jobs
use grabarr.Repository.Jobs.{inserted}
use grabarr.Repository.Jobs.Laws.{row_of, IsValid}
use grabarr.Repository.Files.{find_file}
use grabarr.Repository.Files.Laws.{changed_row}
use grabarr.Queue.State.{Queue}
use grabarr.Queue.Ops
use grabarr.Queue.Ops.{with_defaults}
use grabarr.Sync.Scanner.{Scanner}
use grabarr.Api.Response.{PaginationMeta}
use grabarr.Api.Query.{UrlQuery}
use grabarr.Api.Jobs.{CreateJobRequest, create_job}
use grabarr.Api.Jobs.Confined.{local_path_in, create_job-confined}
use grabarr.Api.RemoteFiles.{file_job, queue_file_id}
use grabarr.Api.RemoteFiles.Queueing.{linked, queue_file_id-rows, queue_file_id-twice}
use grabarr.Api.RemoteFiles.Folder.{QueueFolderRequest}
use grabarr.Api.RemoteFiles.Scan.{Contexts, trigger_scan, trigger_scan-canceled}
use grabarr.Api.RemoteFiles.Tree.{TreeNodes, no_nodes, node, build_file_tree}
use grabarr.Tests.Data.{failed_job, seen_file, four_jobs, settings, one_waits, table-IsValid}
use grabarr.Tests.OtherRuns.{configuration, watched, seedbox, scanner}

abbrev request : CreateJobRequest
request = record {
  name = codes "a";
  remote_path = codes "/seed/a.mkv";
  local_path = codes "tv/../a/";
  priority = pos 0;
  max_retries = pos 0;
  file_size = pos 7;
  metadata = no_metadata;
  download_config = none;
}

create_job-confined_example :
    let (r, q') = create_job configuration settings (ok request) one_waits in
    ((r.code ≡ 400) × (q' ≡ one_waits))
    ⊎ ((r.code ≡ 201)
        × All IsDown (elements (codes "tv/../a/"))
        × (local_path_in (row_of 5 q'.db)
            ≡ some (
                codes "/"
                ++ join_by (codes "/") (elements (codes "/data") ++ elements (codes "tv/../a/")))))
create_job-confined_example =
    create_job-confined configuration settings (λ n. refl) request one_waits table-IsValid refl

-- A request that leads out of the base.
escaping :
    (create_job configuration settings
      (ok (record request { local_path = codes "a/../../b" }))
      one_waits).0.code
    ≡ 400
unfolding create_job
escaping = refl

abbrev no_query : UrlQuery
no_query key = []

abbrev listed : List Job
listed = four_jobs.jobs

abbrev first_page : PaginationMeta
first_page = record {
  total = pos 4;
  limit = pos 50;
  offset = pos 0;
  total_pages = pos 1;
  page = pos 1;
}

abbrev kept_file : RemoteFile
kept_file = record seen_file { status = FileStatus.on_seedbox; job_id = none }

abbrev one_file : Queue
one_file = record one_waits { db = record four_jobs { files = kept_file ∷ [] } }

file-IsValid : IsValid one_file.db
file-IsValid = record { unique = table-IsValid.unique; bounded = table-IsValid.bounded }

queue_file_id-rows_example :
    let (r, q') = queue_file_id configuration settings 1 one_file in
    (r.code ≡ 201)
    × (row_of 5 four_jobs ≡ none)
    × (row_of 5 q'.db
        ≡ some (inserted 5 100 (with_defaults settings (file_job configuration kept_file))))
    × (t : Time) × (find_file 1 q'.db.files ≡ changed_row 1 (linked 5 t) (some kept_file))
queue_file_id-rows_example =
    queue_file_id-rows settings (λ n. refl) configuration 1 1 5 one_file kept_file file-IsValid refl
      refl

queue_file_id-twice_example :
    let q' = (queue_file_id configuration settings 1 one_file).1 in
    let (r, q'') = queue_file_id configuration settings 1 q' in
    (r.code ≡ 409) × (q''.db.jobs ≡ q'.db.jobs) × (q''.db.files ≡ q'.db.files)
queue_file_id-twice_example =
    queue_file_id-twice settings (λ n. refl) configuration 1 one_file kept_file file-IsValid refl
      refl

-- The folder is asked for as the web page does, below a watched path that ends with a slash.
abbrev folder : QueueFolderRequest
folder = record { watched_path = codes "/seed/"; folder_path = codes "/" }

abbrev remote : RemoteConfig
remote = record {
  name = codes "box";
  ssh_host = codes "host";
  ssh_user = codes "user";
  ssh_key_file = codes "key";
  watched_paths = watched ∷ [];
}

abbrev pub one_remote : Config
one_remote = record configuration { remotes = remote ∷ [] }

abbrev request_done : Contexts
request_done = record { request = λ n. some canceled; background = λ n. none }

trigger_scan-canceled_example :
    let (r, goroutine) = trigger_scan request_done one_remote seedbox settings true in
    (r.code ≡ 202)
    × (m : Action Scanner Unit) × (goroutine ≡ some m)
    × ((m scanner).0 ≡ err canceled)
    × ((m scanner).1.queue.db.jobs ≡ scanner.queue.db.jobs)
    × ((m scanner).1.queue.db.files ≡ scanner.queue.db.files)
    × ((m scanner).1.status ≡ scanner.status)
trigger_scan-canceled_example =
    trigger_scan-canceled one_remote seedbox settings request_done scanner canceled
      (remote, watched) [] refl refl refl

abbrev nested_file : RemoteFile
nested_file = record kept_file {
  id = 2;
  remote_path = codes "/seed/show/s1/b.mkv";
  name = codes "b.mkv";
  job_id = some 3;
  status = FileStatus.queued;
}

abbrev tree_files : List RemoteFile
tree_files =
    kept_file
    ∷ nested_file
    ∷ record nested_file { id = 3; remote_path = codes "/seed/show/c.mkv" }
    ∷ []

-- The two files with a failed job count as failed, and both lie below one folder.
two_failed : (build_file_tree (codes "/seed") [] tree_files ((3, failed_job) ∷ [])).stats.failed ≡ 2
unfolding build_file_tree
two_failed = refl

abbrev child_count : TreeNodes → ℕ
child_count no_nodes = 0
child_count (node n ns) = suc (child_count ns)

two_children : child_count (build_file_tree (codes "/seed") [] tree_files []).children ≡ 2
unfolding build_file_tree
two_children = refl
