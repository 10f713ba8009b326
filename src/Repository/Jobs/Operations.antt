-- ===== src/Repository/Jobs/Operations.antt =====
-- internal/repository/repository.go: the statements as transactions on a valid table.
use grabarr.Common.{
  ℕ, suc, ◌≤◌, ◌≡◌, not, ◌==◌, Option-cases, none, some, [], ◌∷◌, if◌then◌else◌, All-append, Text,
  codes, ok, Action, >>=_ind, arith,
}
use grabarr.Models.Job.{Time, Job}
use grabarr.Repository.Db.{World, Db, exec, exec_ind}
use grabarr.Repository.Jobs.{
  has_id, find_job, inserted, insert_job, update_rows, delete_rows, delete_old, is_old, create_job,
  update_job, delete_job, cleanup_old_jobs,
}
use grabarr.Repository.Jobs.Laws.{
  row_of, IsValid, updated_row, find_job-update, find_job-append, find_job_above,
  find_job-select_ne, IsUnique-select, bounded-select, IsUnique-update, bounded-update,
  IsUnique-append, bounded_suc,
}

module _ (w : World) where
  -- Reading clocks and counting statements keeps a table valid.
  IsValid-exec :
      {A : Type 0} (text : Text) (run : Action Db A) (db : Db)
      → IsValid db
      → (IsValid (record db { statements = suc db.statements })
          → IsValid (run (record db { statements = suc db.statements })).1)
      → IsValid (exec w text run db).1
  IsValid-exec text run db v =
      exec_ind w IsValid text run db (record { unique = v.unique; bounded = v.bounded })

  pub update_job-IsValid : (j : Job) (db : Db) → IsValid db → IsValid (update_job w j db).1
  unfolding update_job
  update_job-IsValid j db v = IsValid-exec _ (update_rows w j) db v (λ _. record {
    unique = IsUnique-update j.id (w.now db.readings) j db.jobs v.unique;
    bounded = bounded-update j.id (w.now db.readings) j db.last_job_id db.jobs v.bounded;
  })

  create_job-fresh : (j : Job) (db : Db) → IsValid db → find_job (suc db.last_job_id) db.jobs ≡ none
  create_job-fresh j db v =
      find_job_above db.last_job_id (suc db.last_job_id) db.jobs v.bounded (omega arith)

  insert_job-IsValid : (j : Job) (db : Db) → IsValid db → IsValid (insert_job w j db).1
  insert_job-IsValid j db v =
      let row = inserted (suc db.last_job_id) (w.now db.readings) j in
      record {
        unique = IsUnique-append db.jobs row v.unique (create_job-fresh j db v);
        bounded =
            All-append (λ r. r.id ≤ suc db.last_job_id) db.jobs (row ∷ [])
              (bounded_suc db.last_job_id db.jobs v.bounded) (omega arith, tt);
      }

  pub create_job-IsValid : (j : Job) (db : Db) → IsValid db → IsValid (create_job w j db).1
  unfolding create_job
  create_job-IsValid j db v =
      >>=_ind IsValid (exec w (codes "failed to create job") (insert_job w j)) _ db
        (IsValid-exec _ (insert_job w j) db v (insert_job-IsValid j _))
        (λ id t kept. record { unique = kept.unique; bounded = kept.bounded })

  pub delete_job-IsValid : (id : ℕ) (db : Db) → IsValid db → IsValid (delete_job w id db).1
  unfolding delete_job
  delete_job-IsValid id db v = IsValid-exec _ (delete_rows w id) db v (λ _. record {
    unique = IsUnique-select (λ j. not (has_id id j)) db.jobs v.unique;
    bounded = bounded-select (λ j. not (has_id id j)) db.last_job_id db.jobs v.bounded;
  })

  pub cleanup_old_jobs-IsValid :
      (c f : Time) (db : Db) → IsValid db → IsValid (cleanup_old_jobs w c f db).1
  unfolding cleanup_old_jobs
  cleanup_old_jobs-IsValid c f db v = IsValid-exec _ (delete_old w c f) db v (λ _. record {
    unique = IsUnique-select (λ j. not (is_old c f j)) db.jobs v.unique;
    bounded = bounded-select (λ j. not (is_old c f j)) db.last_job_id db.jobs v.bounded;
  })

  -- On a valid table a statement that does not fail gives the new job an id that no row had; its
  -- row holds what the caller gave, with no retries, and every other row is as it was.
  pub create_job-row :
      (j : Job) (db : Db) (k : ℕ)
      → IsValid db
      → w.fault db.statements ≡ none
      → let (r, db') = create_job w j db in
        let id = suc db.last_job_id in
        (row_of id db ≡ none)
        × (row_of k db'
            ≡ (if k == id then some (inserted id (w.now db.readings) j) else row_of k db))
        × (r
            ≡ ok (record j {
              id = id;
              created_at = w.now (suc db.readings);
              updated_at = w.now (suc (suc db.readings));
            }))
  unfolding create_job
  create_job-row j db k v quiet =
      let id = suc db.last_job_id in
      let row = inserted id (w.now db.readings) j in
      let fresh = create_job-fresh j db v in
      (
        fresh,
        ground (arith, find_job-append k db.jobs row, Option-cases (find_job k db.jobs), fresh),
        ground arith,
      )

  -- An update that does not fail changes only the row of the job's id, and that row only in the
  -- columns that UpdateJob sets and its `updated_at`; where there is no such row it changes no row,
  -- and is no error.
  pub update_job-row :
      (j : Job) (db : Db) (k : ℕ)
      → w.fault db.statements ≡ none
      → let (r, db') = update_job w j db in
        (r ≡ ok tt) × (row_of k db' ≡ updated_row j.id (w.now db.readings) j k (row_of k db))
  unfolding update_job
  update_job-row j db k quiet = ground (arith, find_job-update j.id (w.now db.readings) j k db.jobs)

  -- Where the statement does not fail, a deleted job's row is gone, and every other row is as it
  -- was; an id with no row is no error.
  pub delete_job-row :
      (id : ℕ) (db : Db) (k : ℕ)
      → w.fault db.statements ≡ none
      → let (r, db') = delete_job w id db in
        (r ≡ ok tt) × (row_of k db' ≡ (if k == id then none else row_of k db))
  unfolding delete_job
  delete_job-row id db k quiet = ground (arith, find_job-select_ne k id db.jobs)
