-- ===== src/Repository/Jobs/Laws.antt =====
-- internal/repository/repository.go: what each statement does to the rows of the jobs table.
use grabarr.Common.{
  ℕ, suc, ◌≤◌, ◌≡◌, refl, Bool, not, ◌==◌, Option, none, some, List, [], ◌∷◌, ◌++◌, if◌then◌else◌,
  pos, select, All, arith,
}
use grabarr.Models.Job.{Time, Job}
use grabarr.Models.Job.Status.{JobStatus}
use grabarr.Repository.Db.{Db, update_where}
use grabarr.Repository.Jobs.{has_id, find_job, updated}

-- The row of a job, if it is there.
abbrev pub row_of : ℕ → Db → Option Job
row_of id db = find_job id db.jobs

abbrev pub status_in : Option Job → Option JobStatus
status_in none = none
status_in (some j) = some j.status

-- The status in the database of the job with an id.
abbrev pub status_of : ℕ → Db → Option JobStatus
status_of id db = status_in (row_of id db)

-- No two rows share an id.
abbrev pub IsUnique : List Job → Type 0
IsUnique [] = Unit
IsUnique (j ∷ js) = (find_job j.id js ≡ none) × IsUnique js

-- Ids are unique, and none is above the counter from which the next one is taken.
pub record IsValid (db : Db) : Type 0 where
  pub unique : IsUnique db.jobs
  pub bounded : All (λ j. j.id ≤ db.last_job_id) db.jobs

-- The columns of a row after an UPDATE that stores a job at a time.
abbrev pub stored_columns : Time → Job → Job → Job
stored_columns now j row = record {
  id = row.id;
  name = row.name;
  remote_path = row.remote_path;
  local_path = row.local_path;
  status = j.status;
  priority = j.priority;
  retries = j.retries;
  max_retries = row.max_retries;
  error_message = j.error_message;
  progress = j.progress;
  metadata = row.metadata;
  download_config = row.download_config;
  created_at = row.created_at;
  updated_at = now;
  started_at = j.started_at;
  completed_at = j.completed_at;
  file_size = row.file_size;
  transferred_bytes = j.transferred_bytes;
  transfer_speed = j.transfer_speed;
}

-- The columns of a new row, with an id, that stores a job at a time.
abbrev pub new_columns : ℕ → Time → Job → Job
new_columns id now j = record {
  id = id;
  name = j.name;
  remote_path = j.remote_path;
  local_path = j.local_path;
  status = j.status;
  priority = j.priority;
  retries = 0;
  max_retries = j.max_retries;
  error_message = [];
  progress = j.progress;
  metadata = j.metadata;
  download_config = j.download_config;
  created_at = now;
  updated_at = now;
  started_at = none;
  completed_at = none;
  file_size = j.file_size;
  transferred_bytes = pos 0;
  transfer_speed = pos 0;
}

abbrev pub updated_row : ℕ → Time → Job → ℕ → Option Job → Option Job
updated_row id now j k none = none
updated_row id now j k (some row) = some (if k == id then stored_columns now j row else row)

pub find_job-update :
    (id : ℕ) (now : Time) (j : Job) (k : ℕ) (js : List Job)
    → find_job k (update_where (has_id id) (updated now j) js)
      ≡ updated_row id now j k (find_job k js)
find_job-update id now j k [] = refl
find_job-update id now j k (x ∷ xs) = ground (arith, find_job-update id now j k xs)

pub find_job-append :
    (k : ℕ) (js : List Job) (x : Job)
    → find_job k (js ++ x ∷ [])
      ≡ elim (find_job k js) [ some j ↦ some j | none ↦ if x.id == k then some x else none ]
find_job-append k [] x = refl
find_job-append k (y ∷ ys) x = ground (arith, find_job-append k ys x)

pub find_job-id : (id : ℕ) (js : List Job) {j : Job} → find_job id js ≡ some j → j.id ≡ id
find_job-id id [] e = ground arith
find_job-id id (x ∷ xs) {j} e = ground (arith, find_job-id id xs {j = j})

-- Above the bound there is no row.
pub find_job_above :
    (n k : ℕ) (js : List Job) → All (λ j. j.id ≤ n) js → suc n ≤ k → find_job k js ≡ none
find_job_above n k [] h lt = refl
find_job_above n k (x ∷ xs) h lt = ground (arith, find_job_above n k xs h.1 lt)

-- `select` on a test of the id.
pub find_job-select_ne :
    (k id : ℕ) (js : List Job)
    → find_job k (select (λ j. not (has_id id j)) js) ≡ (if k == id then none else find_job k js)
find_job-select_ne k id [] = ground arith
find_job-select_ne k id (x ∷ xs) = ground (arith, find_job-select_ne k id xs)

pub find_job-select-none :
    (test : Job → Bool) (k : ℕ) (js : List Job)
    → find_job k js ≡ none
    → find_job k (select test js) ≡ none
find_job-select-none test k [] h = refl
find_job-select-none test k (x ∷ xs) h = ground (arith, find_job-select-none test k xs)

pub IsUnique-select : (test : Job → Bool) (js : List Job) → IsUnique js → IsUnique (select test js)
IsUnique-select test [] h = tt
IsUnique-select test (x ∷ xs) (fresh, h) =
    ground (arith, find_job-select-none test x.id xs fresh, IsUnique-select test xs h)

pub bounded-select :
    (test : Job → Bool) (n : ℕ) (js : List Job)
    → All (λ j. j.id ≤ n) js
    → All (λ j. j.id ≤ n) (select test js)
bounded-select test n [] h = tt
bounded-select test n (x ∷ xs) (p, h) = ground (arith, bounded-select test n xs h)

pub IsUnique-update :
    (id : ℕ) (now : Time) (j : Job) (js : List Job)
    → IsUnique js
    → IsUnique (update_where (has_id id) (updated now j) js)
IsUnique-update id now j [] h = tt
IsUnique-update id now j (x ∷ xs) (fresh, h) =
    ground (arith, find_job-update id now j x.id xs, IsUnique-update id now j xs h)

pub bounded-update :
    (id : ℕ) (now : Time) (j : Job) (n : ℕ) (js : List Job)
    → All (λ r. r.id ≤ n) js
    → All (λ r. r.id ≤ n) (update_where (has_id id) (updated now j) js)
bounded-update id now j n [] h = tt
bounded-update id now j n (x ∷ xs) (p, h) = ground (arith, bounded-update id now j n xs h)

pub IsUnique-append :
    (js : List Job) (x : Job) → IsUnique js → find_job x.id js ≡ none → IsUnique (js ++ x ∷ [])
IsUnique-append [] x h fresh = (refl, tt)
IsUnique-append (y ∷ ys) x (p, h) fresh =
    ground (arith, find_job-append y.id ys x, IsUnique-append ys x h)

pub bounded_suc : (n : ℕ) (js : List Job) → All (λ j. j.id ≤ n) js → All (λ j. j.id ≤ suc n) js
bounded_suc n [] h = tt
bounded_suc n (x ∷ xs) (p, h) = (omega arith, bounded_suc n xs h)
