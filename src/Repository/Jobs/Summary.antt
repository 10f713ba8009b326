-- ===== src/Repository/Jobs/Summary.antt =====
-- internal/repository/repository.go: the summary and the cleanup as counts.
use grabarr.Common.{
  ℕ, ◌+◌, ◌≡◌, ◌≢◌, refl, Bool, not, none, some, List, [], ◌∷◌, if◌then◌else◌, length, select, All,
  ok, arith,
}
use grabarr.Models.Job.{Time, Job, JobSummary}
use grabarr.Models.Job.Status.{JobStatus}
use grabarr.Repository.Db.{World, Db}
use grabarr.Repository.Jobs.{count_status, find_job, is_old, get_job_summary, cleanup_old_jobs}
use grabarr.Repository.Jobs.Laws.{row_of, IsUnique, IsValid, find_job-select-none}

-- The six counts of a summary.
abbrev pub counted : JobSummary → ℕ
counted s =
    s.queued_jobs + s.pending_jobs + s.running_jobs + s.completed_jobs + s.failed_jobs
    + s.cancelled_jobs

abbrev counts : List Job → ℕ
counts js =
    count_status JobStatus.queued js
    + count_status JobStatus.pending js
    + count_status JobStatus.running js
    + count_status JobStatus.completed js
    + count_status JobStatus.failed js
    + count_status JobStatus.cancelled js

counts-eq-length :
    (js : List Job) → All (λ j. j.status ≢ JobStatus.unset) js → counts js ≡ length js
counts-eq-length [] h = refl
counts-eq-length (j ∷ js) (p, h) = ground (arith, counts-eq-length js h)

module _ (w : World) where
  -- Where every row has a status, the six counts of the summary add up to its total, which is the
  -- number of rows.
  get_job_summary_total :
      (db : Db) (s : JobSummary)
      → All (λ j. j.status ≢ JobStatus.unset) db.jobs
      → (get_job_summary w db).0 ≡ ok s
      → (counted s ≡ s.total_jobs) × (s.total_jobs ≡ length db.jobs)
  unfolding get_job_summary
  get_job_summary_total db s h e = ground (arith, counts-eq-length db.jobs h)

  -- On a table with no rows the summary is an error, also where the statement does not fail.
  pub get_job_summary_empty :
      (db : Db) → db.jobs ≡ [] → (s : JobSummary) → (get_job_summary w db).0 ≢ ok s
  unfolding get_job_summary
  get_job_summary_empty db e s = ground arith

length-select-not :
    (test : Job → Bool) (js : List Job)
    → length (select test js) + length (select (λ j. not (test j)) js) ≡ length js
length-select-not test [] = refl
length-select-not test (x ∷ xs) = ground (arith, length-select-not test xs)

find_job-select_kept :
    (test : Job → Bool) (k : ℕ) (js : List Job) {row : Job}
    → IsUnique js
    → find_job k js ≡ some row
    → find_job k (select test js) ≡ (if test row then some row else none)
find_job-select_kept test k [] u e = ground arith
find_job-select_kept test k (x ∷ xs) {row} u e =
    ground (arith, find_job-select_kept test k xs {row = row} u.1, find_job-select-none test k xs)

module _ (w : World) (completed_before failed_before : Time) where
  -- On a valid table and where the statement does not fail, the cleanup reports the number of
  -- rows that it deleted, and deletes a row exactly if it is old: completed before the one time,
  -- or failed and last updated before the other.
  pub cleanup_old_jobs-row :
      (db : Db) (k : ℕ) {row : Job}
      → IsValid db
      → w.fault db.statements ≡ none
      → row_of k db ≡ some row
      → let (r, db') = cleanup_old_jobs w completed_before failed_before db in
        (n : ℕ) × (r ≡ ok n)
        × (n + length db'.jobs ≡ length db.jobs)
        × (row_of k db' ≡ (if is_old completed_before failed_before row then none else some row))
  unfolding cleanup_old_jobs
  cleanup_old_jobs-row db k {row} v quiet e =
      let old = is_old completed_before failed_before in
      (
        length (select old db.jobs),
        ground arith,
        ground (arith, length-select-not old db.jobs),
        ground (arith, find_job-select_kept (λ j. not (old j)) k db.jobs {row = row} v.unique),
      )
