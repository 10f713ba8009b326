-- ===== src/Repository/Jobs.antt =====
-- internal/repository/repository.go: jobs, attempts, the summary, the configuration table and the
-- cleanup. Rows hold the columns of a job directly: the JSON of progress, metadata and download
-- settings is read back as it was written.
pub mod Query
pub mod Laws
pub mod Operations
pub mod Summary
pub mod Filters
pub mod Order
pub mod Store
use Query.{matches, before_row, page, in_group, name_before}
use grabarr.Common.{
  ℕ, suc, ◌+◌, Bool, true, false, not, ◌&&◌, ◌||◌, ◌==◌, Option, none, some, List, [], ◌∷◌, ◌++◌,
  if◌then◌else◌, length, any, select, sort_by, ltb, ltb_ℤ, leb_ℤ, ℤ, pos, decimal, Text, codes,
  ◌=t◌, Error, plain, Result, ok, err, Action, pure, fail, get, modify, ◌>>=◌, ◌>>◌,
}
use grabarr.Models.Job.{Time, Job, JobAttempt, JobFilter, JobSummary, new_job, no_progress}
use grabarr.Models.Job.Status.{JobStatus, status_eq}
use grabarr.Repository.Db.{World, Db, exec, time_now, update_where}

abbrev pub has_id : ℕ → Job → Bool
has_id id j = j.id == id

abbrev pub find_job : ℕ → List Job → Option Job
find_job id [] = none
find_job id (j ∷ js) = if j.id == id then some j else find_job id js

-- The row that CreateJob's INSERT writes: the columns that it does not name have their defaults.
abbrev pub inserted : ℕ → Time → Job → Job
inserted id now j = record new_job {
  id = id;
  name = j.name;
  remote_path = j.remote_path;
  local_path = j.local_path;
  status = j.status;
  priority = j.priority;
  max_retries = j.max_retries;
  progress = j.progress;
  metadata = j.metadata;
  download_config = j.download_config;
  created_at = now;
  updated_at = now;
  file_size = j.file_size;
}

-- The columns that UpdateJob sets, and the trigger's `updated_at`.
abbrev pub updated : Time → Job → Job → Job
updated now j row = record row {
  status = j.status;
  priority = j.priority;
  retries = j.retries;
  error_message = j.error_message;
  progress = j.progress;
  started_at = j.started_at;
  completed_at = j.completed_at;
  transferred_bytes = j.transferred_bytes;
  transfer_speed = j.transfer_speed;
  updated_at = now;
}

abbrev pub count_status : JobStatus → List Job → ℕ
count_status s [] = 0
count_status s (j ∷ js) =
    if status_eq j.status s then suc (count_status s js) else count_status s js

-- A row with no `completed_at` compares as NULL, which is not true.
abbrev pub is_old : (completed_before failed_before : Time) → Job → Bool
is_old completed_before failed_before j =
    (status_eq j.status JobStatus.completed
      && elim j.completed_at [ none ↦ false | some t ↦ ltb t completed_before ])
    || (status_eq j.status JobStatus.failed && ltb j.updated_at failed_before)

abbrev pub lookup_config : Text → List (Text × Text) → Option Text
lookup_config key [] = none
lookup_config key ((k, v) ∷ rest) = if k =t key then some v else lookup_config key rest

abbrev pub upsert_config : Text → Text → List (Text × Text) → List (Text × Text)
upsert_config key value [] = (key, value) ∷ []
upsert_config key value ((k, v) ∷ rest) =
    if k =t key then (k, value) ∷ rest else (k, v) ∷ upsert_config key value rest

module _ (w : World) where
  abbrev insert_job : Job → Action Db ℕ
  insert_job j = do
    now ← time_now w
    db ← get
    modify (λ s. record s {
      jobs = s.jobs ++ inserted (suc s.last_job_id) now j ∷ [];
      last_job_id = suc s.last_job_id;
    })
    pure (suc db.last_job_id)

  -- Returns the job with its id and its two times.
  unfoldable pub create_job : Job → Action Db Job
  create_job j = do
    id ← exec w (codes "failed to create job") (insert_job j)
    created ← time_now w
    later ← time_now w
    pure (record j { id = id; created_at = created; updated_at = later })

  abbrev pub select_job : ℕ → Action Db Job
  select_job id = do
    db ← get
    elim (find_job id db.jobs) [
      | some j ↦ pure j
      | none ↦ fail (plain (codes "job " ++ decimal (pos id) ++ codes " not found"))
    ]

  unfoldable pub get_job : ℕ → Action Db Job
  get_job id = exec w (codes "failed to get job") (select_job id)

  -- The ORDER BY clause of GetJobs. SQLite has no OFFSET without a LIMIT: the query is refused.
  abbrev pub select_jobs : JobFilter → Action Db (List Job)
  select_jobs filter db =
      let column = if filter.sort_by =t [] then codes "created_at" else filter.sort_by in
      let direction = if filter.sort_order =t [] then codes "DESC" else filter.sort_order in
      if leb_ℤ filter.limit (pos 0) && ltb_ℤ (pos 0) filter.offset
      then (err (plain (codes "failed to query jobs: near \"OFFSET\": syntax error")), db)
      else elim (w.order_by column direction) [
        | none ↦ (err (plain (codes "failed to query jobs: bad ORDER BY term")), db)
        | some before ↦
            (ok (page filter (sort_by (before_row before) (select (matches filter) db.jobs))), db)
      ]

  unfoldable pub get_jobs : JobFilter → Action Db (List Job)
  get_jobs filter = exec w (codes "failed to query jobs") (select_jobs filter)

  unfoldable pub count_jobs : JobFilter → Action Db ℕ
  count_jobs filter =
      exec w (codes "failed to count jobs")
        (do db ← get; pure (length (select (matches filter) db.jobs)))

  unfoldable pub get_jobs_by_archive_group : Text → Action Db (List Job)
  get_jobs_by_archive_group group =
      exec w (codes "failed to query jobs by archive group")
        (do db ← get; pure (sort_by name_before (select (in_group group) db.jobs)))

  -- The trigger reads CURRENT_TIMESTAMP once for the row.
  abbrev update_rows : Job → Action Db Unit
  update_rows j = do
    now ← time_now w
    modify (λ s. record s { jobs = update_where (has_id j.id) (updated now j) s.jobs })

  unfoldable pub update_job : Job → Action Db Unit
  update_job j = exec w (codes "failed to update job") (update_rows j)

  -- Foreign keys are not switched on in the connection string, so nothing cascades.
  abbrev delete_rows : ℕ → Action Db Unit
  delete_rows id = modify (λ s. record s { jobs = select (λ j. not (has_id id j)) s.jobs })

  unfoldable pub delete_job : ℕ → Action Db Unit
  delete_job id = exec w (codes "failed to delete job") (delete_rows id)

  -- Over an empty table SUM is NULL, which does not scan into an `int`.
  abbrev select_summary : Action Db JobSummary
  select_summary = do
    db ← get
    elim db.jobs [
      | [] ↦ fail (plain (codes "failed to get job summary: converting NULL to int is unsupported"))
      | j ∷ js ↦ pure (record {
        total_jobs = length db.jobs;
        queued_jobs = count_status JobStatus.queued db.jobs;
        pending_jobs = count_status JobStatus.pending db.jobs;
        running_jobs = count_status JobStatus.running db.jobs;
        completed_jobs = count_status JobStatus.completed db.jobs;
        failed_jobs = count_status JobStatus.failed db.jobs;
        cancelled_jobs = count_status JobStatus.cancelled db.jobs;
      })
    ]

  unfoldable pub get_job_summary : Action Db JobSummary
  get_job_summary = exec w (codes "failed to get job summary") select_summary

  unfoldable pub create_job_attempt : JobAttempt → Action Db JobAttempt
  create_job_attempt a = do
    id ← exec w (codes "failed to create job attempt") (do
      now ← time_now w
      db ← get
      modify (λ s. record s {
        attempts =
            s.attempts
            ++ record a { id = suc s.last_attempt_id; started_at = now; ended_at = none } ∷ [];
        last_attempt_id = suc s.last_attempt_id;
      })
      pure (suc db.last_attempt_id))
    started ← time_now w
    pure (record a { id = id; started_at = started })

  unfoldable pub update_job_attempt : JobAttempt → Action Db Unit
  update_job_attempt a = exec w (codes "failed to update job attempt") (
      modify (λ s. record s {
        attempts =
            update_where (λ row. row.id == a.id)
              (λ row. record row {
                status = a.status;
                error_message = a.error_message;
                ended_at = a.ended_at;
                log_data = a.log_data;
              })
              s.attempts;
      }))

  unfoldable pub get_job_attempts : ℕ → Action Db (List JobAttempt)
  get_job_attempts job_id = exec w (codes "failed to query job attempts") (do
    db ← get
    pure (
        sort_by (λ a b. ltb b.attempt_num a.attempt_num)
          (select (λ a. a.job_id == job_id) db.attempts)))

  unfoldable pub get_config : Text → Action Db Text
  get_config key = exec w (codes "failed to get config") (do
    db ← get
    elim (lookup_config key db.config) [
      | some value ↦ pure value
      | none ↦ fail (plain (codes "config key " ++ key ++ codes " not found"))
    ])

  unfoldable pub set_config : Text → Text → Action Db Unit
  set_config key value =
      exec w (codes "failed to set config")
        (modify (λ s. record s { config = upsert_config key value s.config }))

  -- Returns the number of rows that the DELETE removed.
  abbrev delete_old : (completed_before failed_before : Time) → Action Db ℕ
  delete_old completed_before failed_before db =
      let old = is_old completed_before failed_before in
      (ok (length (select old db.jobs)), record db { jobs = select (λ j. not (old j)) db.jobs })

  unfoldable pub cleanup_old_jobs : (completed_before failed_before : Time) → Action Db ℕ
  cleanup_old_jobs completed_before failed_before =
      exec w (codes "failed to cleanup old jobs") (delete_old completed_before failed_before)
