-- ===== src/Executor/Rsync/Laws.antt =====
-- internal/executor/rsync.go: what a download writes to the row of its job.
use grabarr.Common.{
  ℕ, ◌≡◌, refl, true, Option-cases, none, some, List, [], ◌∷◌, is_abs, canceled, ok, arith,
}
use grabarr.Models.Job.{Job, JobProgress}
use grabarr.Models.Job.Status.{JobStatus}
use grabarr.Repository.Db.{World, Db}
use grabarr.Repository.Jobs.{update_job}
use grabarr.Repository.Jobs.Laws.{row_of, status_of, find_job-update}
use grabarr.Executor.Rsync.{started, context_done, report, monitor, execute_download}

module _ (w : World) (quiet : (n : ℕ) → w.fault n ≡ none) where
  update_job-status :
      (j : Job) (db : Db) {s : JobStatus}
      → status_of j.id db ≡ some s
      → status_of j.id (update_job w j db).1 ≡ some j.status
  unfolding update_job
  update_job-status j db {s} there = ground (
    arith,
    quiet db.statements,
    Option-cases (row_of j.id db),
    find_job-update j.id (w.now db.readings) j j.id db.jobs,
  )

  monitor-status :
      (ps : List JobProgress) (j : Job) (db : Db)
      → status_of j.id db ≡ some j.status
      → status_of j.id (monitor w ps j db).1 ≡ some j.status
  unfolding monitor
  monitor-status [] j db there = there
  monitor-status (p ∷ ps) j db there =
      monitor-status ps (report p j) (update_job w (report p j) db).1
        (update_job-status (report p j) db there)

  -- The job with the reports in it.
  abbrev pub reported : List JobProgress → Job → Job
  reported [] j = j
  reported (p ∷ ps) j = reported ps (report p j)

  monitor-ok :
      (ps : List JobProgress) (j : Job) (db : Db) → (monitor w ps j db).0 ≡ ok (reported ps j)
  unfolding monitor
  monitor-ok [] j db = refl
  monitor-ok (p ∷ ps) j db = monitor-ok ps (report p j) (update_job w (report p j) db).1

  -- Where the driver reports no error and the job is stored, a download with an absolute local path
  -- that reports progress and is then stopped by its context returns the context's error, and has
  -- written the status that the executor's copy of the job has over the row's, whatever that was: a
  -- cancellation in the meantime is lost.
  pub execute_download-stopped :
      (p : JobProgress) (ps : List JobProgress) (j : Job) (db : Db) (row : Job)
      → is_abs j.local_path ≡ true
      → row_of j.id db ≡ some row
      → let (r, db') = execute_download w (started (p ∷ ps) context_done) j db in
        (r ≡ ok (some canceled, reported (p ∷ ps) j)) × (status_of j.id db' ≡ some j.status)
  unfolding execute_download
  execute_download-stopped p ps j db row absolute there =
      let db1 = (update_job w (report p j) db).1 in
      let status = update_job-status (report p j) db {s = row.status} (ground (arith, there)) in
      ground (arith, monitor-ok (p ∷ ps) j db, monitor-status ps (report p j) db1 status)
