-- ===== src/Api/RemoteFiles/Queueing.antt =====
-- internal/api/remote_files.go: QueueRemoteFile on the rows of jobs and files.
use grabarr.Common.{
  ℕ, suc, ◌≡◌, refl, true, false, ◌==◌, none, some, List, [], ◌∷◌, if◌then◌else◌, ok, arith,
}
use grabarr.Config.{Config}
use grabarr.Models.Job.{Time, Job}
use grabarr.Models.RemoteFile.{FileStatus, RemoteFile}
use grabarr.Repository.Db.{Db}
use grabarr.Repository.Jobs.{inserted, create_job}
use grabarr.Repository.Jobs.Laws.{row_of, IsValid}
use grabarr.Repository.Files.{find_file, get_remote_file, link_remote_file_to_job}
use grabarr.Repository.Files.Laws.{changed_row, find_file-update}
use grabarr.Queue.State.{Queue, Env}
use grabarr.Queue.Ops.{enqueue, with_defaults}
use grabarr.Queue.Ops.Laws.{Quiet, enqueue-row}
use grabarr.Api.RemoteFiles.{is_busy, file_job, queue_found, queue_file_id}

find_file-id : (n : ℕ) (fs : List RemoteFile) {f : RemoteFile} → find_file n fs ≡ some f → f.id ≡ n
find_file-id n [] e = ground (arith, e)
find_file-id n (x ∷ xs) {f} e = ground (arith, e, find_file-id n xs {f = f})

-- A file that is linked to a job as queued.
abbrev pub linked : ℕ → Time → RemoteFile → RemoteFile
linked job now f = record f { job_id = some job; status = FileStatus.queued; updated_at = now }

module _ (env : Env) (quiet : Quiet env) where
  enqueue-files : (j : Job) (q : Queue) → (enqueue env j q).1.db.files ≡ q.db.files
  unfolding enqueue create_job
  enqueue-files j q = ground (arith, quiet q.db.statements)

  link-file :
      (id job k : ℕ) (db : Db)
      → let (r, db') = link_remote_file_to_job env.world id job FileStatus.queued db in
        (r ≡ ok tt)
        × (find_file k db'.files
            ≡ changed_row id (linked job (env.world.now db.readings)) (find_file k db.files))
        × (db'.jobs ≡ db.jobs)
  unfolding link_remote_file_to_job
  link-file id job k db =
      let now = env.world.now db.readings in
      (
        ground (arith, quiet db.statements),
        ground (
          arith,
          quiet db.statements,
          find_file-update id (linked job now) k db.files (λ f. refl),
        ),
        ground (arith, quiet db.statements),
      )

  module _ (cfg : Config) where
    -- Where the driver reports no error, a file that is queued or downloading is refused with 409,
    -- and no row of a job or of a file changes.
    queue_file_id-busy :
        (n : ℕ) (q : Queue) (rf : RemoteFile)
        → find_file n q.db.files ≡ some rf
        → is_busy rf ≡ true
        → let (r, q') = queue_file_id cfg env n q in
          (r.code ≡ 409) × (q'.db.jobs ≡ q.db.jobs) × (q'.db.files ≡ q.db.files)
    unfolding queue_file_id get_remote_file
    queue_file_id-busy n q rf found busy = (
      ground (arith, quiet q.db.statements, found, busy),
      ground (arith, quiet q.db.statements, found, busy),
      ground (arith, quiet q.db.statements, found, busy),
    )

    queue_found-rows :
        (k i : ℕ) (q : Queue) (rf : RemoteFile)
        → IsValid q.db
        → is_busy rf ≡ false
        → let job = suc q.db.last_job_id in
          let (r, q') = queue_found cfg env rf q in
          (r.code ≡ 201)
          × (row_of i q'.db ≡ (
              if i == job
              then some
                  (inserted job (env.world.now q.db.readings) (with_defaults env (file_job cfg rf)))
              else row_of i q.db))
          × (t : Time) × (find_file k q'.db.files
              ≡ changed_row rf.id (linked job t) (find_file k q.db.files))
    queue_found-rows k i q rf v free =
        let job = suc q.db.last_job_id in
        let made = file_job cfg rf in
        let saved = record (with_defaults env made) {
          id = job;
          created_at = env.world.now (suc q.db.readings);
          updated_at = env.world.now (suc (suc q.db.readings));
        } in
        let after = (enqueue env made q).1 in
        let (returned, fresh, stored, sent) = enqueue-row env quiet made q i v in
        let (sure, files, jobs) = link-file rf.id job k after.db in
        (
          ground (arith, free, returned, sure),
          ground (arith, free, returned, sure, jobs, stored),
          env.world.now after.db.readings,
          ground (arith, free, returned, sure, files, enqueue-files made q),
        )

    -- Where the driver reports no error and the table of jobs is valid, a stored file that is neither
    -- queued nor downloading is queued: the answer is 201, the job is in a row of its own and no
    -- other row of a job changes, the file's row is linked to that job as queued and no other row
    -- of a file changes.
    pub queue_file_id-rows :
        (n k i : ℕ) (q : Queue) (rf : RemoteFile)
        → IsValid q.db
        → find_file n q.db.files ≡ some rf
        → is_busy rf ≡ false
        → let job = suc q.db.last_job_id in
          let (r, q') = queue_file_id cfg env n q in
          (r.code ≡ 201)
          × (row_of job q.db ≡ none)
          × (row_of i q'.db ≡ (
              if i == job
              then some
                  (inserted job (env.world.now q.db.readings) (with_defaults env (file_job cfg rf)))
              else row_of i q.db))
          × (t : Time) × (find_file k q'.db.files
              ≡ changed_row n (linked job t) (find_file k q.db.files))
    unfolding queue_file_id get_remote_file
    queue_file_id-rows n k i q rf v found free =
        let asked = record q { db = record q.db { statements = suc q.db.statements } } in
        let valid : IsValid asked.db = record { unique = v.unique; bounded = v.bounded } in
        let (code, row, t, files) = queue_found-rows k i asked rf valid free in
        let (returned, fresh, stored, sent) =
          enqueue-row env quiet (file_job cfg rf) asked i valid in
        let same = find_file-id n q.db.files {f = rf} found in
        (
          ground (arith, quiet q.db.statements, found, code),
          fresh,
          ground (arith, quiet q.db.statements, found, row),
          t,
          ground (arith, quiet q.db.statements, found, files, same),
        )

    -- Where the driver reports no error and the table of jobs is valid, queueing a file twice makes
    -- one job: the second call is refused with 409 and changes no row.
    pub queue_file_id-twice :
        (n : ℕ) (q : Queue) (rf : RemoteFile)
        → IsValid q.db
        → find_file n q.db.files ≡ some rf
        → is_busy rf ≡ false
        → let q' = (queue_file_id cfg env n q).1 in
          let (r, q'') = queue_file_id cfg env n q' in
          (r.code ≡ 409) × (q''.db.jobs ≡ q'.db.jobs) × (q''.db.files ≡ q'.db.files)
    queue_file_id-twice n q rf v found free =
        let (code, fresh, row, t, files) = queue_file_id-rows n n n q rf v found free in
        let after = linked (suc q.db.last_job_id) t rf in
        let marked : find_file n (queue_file_id cfg env n q).1.db.files ≡ some after =
          ground (arith, files, found, find_file-id n q.db.files {f = rf} found) in
        queue_file_id-busy n (queue_file_id cfg env n q).1 after marked refl
