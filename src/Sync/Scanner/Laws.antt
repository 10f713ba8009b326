-- ===== src/Sync/Scanner/Laws.antt =====
-- internal/sync/scanner.go: scans, synchronised statuses and automatic downloads.
use grabarr.Common.{
  ℕ, suc, ◌≡◌, ◌≢◌, refl, Bool, true, false, ◌==◌, Bool-cases, Option, Option-cases, none, some,
  List, [], ◌∷◌, if◌then◌else◌, ok, ◌⊎◌, ◌↔◌, logged, pure, arith,
}
use grabarr.Archive.{is_archive, group_key}
use grabarr.Config.{Config, WatchedPath}
use grabarr.Models.Job.{Job, archive_group, is_extraction_job}
use grabarr.Models.RemoteFile.{FileStatus, RemoteFile, file_status_eq}
use grabarr.Repository.Jobs
use grabarr.Repository.Jobs.{find_job}
use grabarr.Repository.Jobs.Laws.{row_of}
use grabarr.Repository.Files.{find_file, update_remote_file_status}
use grabarr.Repository.Files.Laws.{find_file-update}
use grabarr.Queue.State.{Queue, Env, on_db}
use grabarr.Queue.Ops.{get_job}
use grabarr.Queue.Ops.Laws.{Quiet}
use grabarr.Sync.Listing.{Seedbox}
use grabarr.Sync.Scanner.{
  Scanner, remote_file_status_from_job, auto_job, sync_with, sync_file, scan_now, run_scan,
}

-- The download that is created for a file is no extraction, and belongs to the archive group of the
-- file's path if the file's name is that of an archive, and to none otherwise.
auto_job-archive_group :
    (cfg : Config) (wp : WatchedPath) (f : RemoteFile)
    → (archive_group (auto_job cfg wp f)
        ≡ (if is_archive f.name then group_key f.remote_path else []))
      × (is_extraction_job (auto_job cfg wp f) ≡ false)
unfolding auto_job
auto_job-archive_group cfg wp f =
    (ground (arith, Bool-cases (is_archive f.name)), ground (arith, Bool-cases (is_archive f.name)))

file_status_eq_iff : (a b : FileStatus) → (file_status_eq a b ≡ true) ↔ (a ≡ b)
file_status_eq_iff a b = (λ e. ground arith, λ e. ground arith)

abbrev HasId : ℕ → Option RemoteFile → Type 0
HasId k none = Unit
HasId k (some f) = f.id ≡ k

find_file-HasId : (k : ℕ) (fs : List RemoteFile) → HasId k (find_file k fs)
find_file-HasId k [] = tt
find_file-HasId k (x ∷ xs) = ground (arith, find_file-HasId k xs)

abbrev pub file_status_in : Option RemoteFile → Option FileStatus
file_status_in none = none
file_status_in (some f) = some f.status

module _ (env : Env) (quiet : Quiet env) where
  get_job-stored :
      (id : ℕ) (j : Job) (q : Queue)
      → row_of id q.db ≡ some j
      → get_job env id q
        ≡ (ok j, record q { db = record q.db { statements = suc q.db.statements } })
  unfolding get_job Jobs.get_job
  get_job-stored id j q stored = ground (arith, quiet q.db.statements, stored)

  sync_if_lem :
      (b : Bool) (rf : RemoteFile) (status : FileStatus) (q : Queue) (k : ℕ)
      → (b ≡ true → status ≡ rf.status)
      → find_file rf.id q.db.files ≡ some rf
      → let change = on_db (update_remote_file_status env.world rf.id status) in
        let q' = ((if b then pure tt else logged change) q).1 in
        (file_status_in (find_file k q'.db.files)
          ≡ (if k == rf.id then some status else file_status_in (find_file k q.db.files)))
        × (q'.db.jobs ≡ q.db.jobs)
  unfolding update_remote_file_status
  sync_if_lem true rf status q k same there = ground (arith, same, there, Bool-cases (k == rf.id))
  sync_if_lem false rf status q k same there =
      let now = env.world.now q.db.readings in
      ground (
        arith,
        quiet q.db.statements,
        find_file-update rf.id (λ (f : RemoteFile). record f { status = status; updated_at = now })
            k q.db.files (λ f. refl),
        Option-cases (find_file k q.db.files),
        find_file-HasId k q.db.files,
        there,
        Bool-cases (k == rf.id),
      )

  sync_found_lem :
      (rf : RemoteFile) (j : Job) (q : Queue) (k : ℕ)
      → find_file rf.id q.db.files ≡ some rf
      → let q' = (sync_with env rf (ok j) q).1 in
        (file_status_in (find_file k q'.db.files) ≡ (
          if k == rf.id
          then some (remote_file_status_from_job j.status)
          else file_status_in (find_file k q.db.files)))
        × (q'.db.jobs ≡ q.db.jobs)
  sync_found_lem rf j q k there =
      let status = remote_file_status_from_job j.status in
      sync_if_lem (file_status_eq status rf.status) rf status q k
        ((file_status_eq_iff status rf.status).0) there

  -- Where the driver reports no error, synchronising a file that is linked to a stored job, with
  -- the row as it was read, gives the row the status that stands for the job's, and leaves the
  -- status of every other file and all jobs as they were.
  pub sync_file-status :
      (rf : RemoteFile) (id : ℕ) (j : Job) (q : Queue) (k : ℕ)
      → rf.job_id ≡ some id
      → row_of id q.db ≡ some j
      → find_file rf.id q.db.files ≡ some rf
      → let q' = (sync_file env rf q).1 in
        (file_status_in (find_file k q'.db.files) ≡ (
          if k == rf.id
          then some (remote_file_status_from_job j.status)
          else file_status_in (find_file k q.db.files)))
        × (q'.db.jobs ≡ q.db.jobs)
  unfolding sync_file
  sync_file-status rf id j q k linked stored there =
      rw (sync_file, linked, get_job-stored id j q stored)
        (sync_found_lem rf j (record q { db = record q.db { statements = suc q.db.statements } }) k
          there)

-- A scan that is asked for while one is in flight is refused and changes nothing; any other leaves
-- none in flight, and if it succeeds the status holds no error, whatever happened to its paths.
pub scan_now-status :
    (cfg : Config) (box : Seedbox) (env : Env) (s : Scanner)
    → let (r, t) = scan_now cfg box env s in
      if s.status.scan_in_flight
      then (r ≢ ok tt) × (t ≡ s)
      else (t.status.scan_in_flight ≡ false) × ((r ≢ ok tt) ⊎ (t.status.error ≡ []))
unfolding scan_now run_scan
scan_now-status cfg box env s = ground (arith, Bool-cases s.status.scan_in_flight)
