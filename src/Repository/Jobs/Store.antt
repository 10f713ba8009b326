-- ===== src/Repository/Jobs/Store.antt =====
-- internal/repository/repository.go: the jobs table as a function from ids to rows. `Store` is what
-- the table promises; `replay` says what each statement does to it.
use grabarr.Common.{
  ℕ, suc, ◌≡◌, refl, sym, ap, ◌∙◌, fun_ext, not, ◌==◌, Bool, false, ltb, Option, Option-cases, none,
  some, List, [], ◌∷◌, if◌then◌else◌, inl, inr, arith,
}
use grabarr.Models.Job.{Time, Job}
use grabarr.Repository.Db.{World, Db}
use grabarr.Models.Job.Status.{JobStatus}
use grabarr.Repository.Jobs.{is_old, create_job, update_job, delete_job, cleanup_old_jobs}
use grabarr.Repository.Jobs.Laws.{row_of, IsValid, new_columns, updated_row, find_job-select-none}
use grabarr.Repository.Jobs.Operations.{
  create_job-row, update_job-row, delete_job-row, create_job-IsValid, update_job-IsValid,
  delete_job-IsValid, cleanup_old_jobs-IsValid,
}
use grabarr.Repository.Jobs.Summary.{cleanup_old_jobs-row}

-- A statement that changes the table.
pub data Statement : Type 0 where
  create update : Job → Statement
  delete : ℕ → Statement
  cleanup : (completed_before failed_before : Time) → Statement

-- `last` is the highest id given so far, and `clock` the number of readings of the clock.
pub record Store : Type 0 where
  pub rows : ℕ → Option Job
  pub last : ℕ
  pub clock : ℕ

abbrev pub view : Db → Store
view db = record { rows = λ k. row_of k db; last = db.last_job_id; clock = db.readings }

-- What the cleanup deletes, by the status of the row: of the completed ones those that were
-- completed before the one time, of the failed ones those last updated before the other.
abbrev pub expires : (completed_before failed_before : Time) → Job → Bool
expires c f row = elim row.status [
  | JobStatus.completed ↦ elim row.completed_at [ none ↦ false | some t ↦ ltb t c ]
  | JobStatus.failed ↦ ltb row.updated_at f
  | JobStatus.queued ↦ false
  | JobStatus.pending ↦ false
  | JobStatus.running ↦ false
  | JobStatus.cancelled ↦ false
  | JobStatus.unset ↦ false
]

is_old-expires : (c f : Time) (row : Job) → is_old c f row ≡ expires c f row
is_old-expires c f row = ground (arith, row.status, row.completed_at)

abbrev without_old : (completed_before failed_before : Time) → Option Job → Option Job
without_old c f none = none
without_old c f (some row) = if expires c f row then none else some row

module _ (w : World) where
  abbrev pub execute : Statement → Db → Db
  execute (create j) db = (create_job w j db).1
  execute (update j) db = (update_job w j db).1
  execute (delete id) db = (delete_job w id db).1
  execute (cleanup c f) db = (cleanup_old_jobs w c f db).1

  pub run : List Statement → Db → Db
  run [] db = db
  run (s ∷ ss) db = run ss (execute s db)

  abbrev pub specified : Statement → Store → Store
  specified (create j) s = record s {
    rows = λ k.
        if k == suc s.last then some (new_columns (suc s.last) (w.now s.clock) j) else s.rows k;
    last = suc s.last;
    clock = suc (suc (suc s.clock));
  }
  specified (update j) s = record s {
    rows = λ k. updated_row j.id (w.now s.clock) j k (s.rows k);
    clock = suc s.clock;
  }
  specified (delete id) s = record s { rows = λ k. if k == id then none else s.rows k }
  specified (cleanup c f) s = record s { rows = λ k. without_old c f (s.rows k) }

  pub replay : List Statement → Store → Store
  replay [] s = s
  replay (t ∷ ts) s = replay ts (specified t s)

module _ (w : World) (quiet : (n : ℕ) → w.fault n ≡ none) where
  execute-IsValid : (s : Statement) (db : Db) → IsValid db → IsValid (execute w s db)
  execute-IsValid (create j) db v = create_job-IsValid w j db v
  execute-IsValid (update j) db v = update_job-IsValid w j db v
  execute-IsValid (delete id) db v = delete_job-IsValid w id db v
  execute-IsValid (cleanup c f) db v = cleanup_old_jobs-IsValid w c f db v

  cleanup-rows :
      (c f : Time) (db : Db) (k : ℕ)
      → IsValid db
      → row_of k (cleanup_old_jobs w c f db).1 ≡ without_old c f (row_of k db)
  unfolding cleanup_old_jobs
  cleanup-rows c f db k v = elim (Option-cases (row_of k db)) [
    | inl e ↦
        ground
          (arith, quiet db.statements, find_job-select-none (λ j. not (is_old c f j)) k db.jobs, e)
    | inr (row, e) ↦
        (cleanup_old_jobs-row w c f db k {row = row} v (quiet db.statements) e).3
        ∙ ap (λ b. if b then none else some row) (is_old-expires c f row)
        ∙ sym (ap (without_old c f) e)
  ]

  execute-rows :
      (s : Statement) (db : Db) (k : ℕ)
      → IsValid db
      → row_of k (execute w s db) ≡ (specified w s (view db)).rows k
  execute-rows (create j) db k v = (create_job-row w j db k v (quiet db.statements)).1
  execute-rows (update j) db k v = (update_job-row w j db k (quiet db.statements)).1
  execute-rows (delete id) db k v = (delete_job-row w id db k (quiet db.statements)).1
  execute-rows (cleanup c f) db k v = cleanup-rows c f db k v

  execute-last :
      (s : Statement) (db : Db) → (execute w s db).last_job_id ≡ (specified w s (view db)).last
  unfolding create_job update_job delete_job cleanup_old_jobs
  execute-last s db = ground (arith, s, quiet db.statements)

  execute-clock :
      (s : Statement) (db : Db) → (execute w s db).readings ≡ (specified w s (view db)).clock
  unfolding create_job update_job delete_job cleanup_old_jobs
  execute-clock s db = ground (arith, s, quiet db.statements)

  view-execute :
      (s : Statement) (db : Db) → IsValid db → view (execute w s db) ≡ specified w s (view db)
  view-execute s db v = λ i. record {
    rows = fun_ext (λ k. execute-rows s db k v) i;
    last = execute-last s db i;
    clock = execute-clock s db i;
  }

  -- Where the driver reports no error and from a table in which no two jobs share an id and none is
  -- above the counter, any statements leave a table that reads as the replay of the statements on the
  -- function from ids to rows that the table was.
  pub run-refines :
      (ss : List Statement) (db : Db) → IsValid db → view (run w ss db) ≡ replay w ss (view db)
  unfolding run replay
  run-refines [] db v = refl
  run-refines (s ∷ ss) db v =
      rw (← view-execute s db v) (run-refines ss (execute w s db) (execute-IsValid s db v))
