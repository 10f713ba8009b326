-- ===== src/Executor/Extract/Laws.antt =====
-- internal/executor/extract.go: what an extraction may fail with, and what it removes.
use grabarr.Common.{
  ◌≡◌, Bool, true, false, Bool-cases, Option-cases, some, List, [], ◌∷◌, if◌then◌else◌, Text, ◌=t◌,
  base, join, Error, Result, ok, err, wrapped, codes, ◌++◌, All, arith,
}
use grabarr.Archive.{is_archive, group_key}
use grabarr.Models.Job.{Job, archive_group}
use grabarr.Executor.Errors.{is_permanent}
use grabarr.Executor.Extract.{
  Shell, command, extraction_error, to_remove, removed, cleanup_archive_files, execute_extraction,
}

-- A path of the group with a base name.
abbrev pub InGroup : Text → Text → Type 0
InGroup group_base path = (base (group_key path) =t group_base) ≡ true

to_remove-InGroup :
    (dir group_base : Text) (entries : List (Text × Bool))
    → All (InGroup group_base) (to_remove dir group_base entries)
unfolding to_remove
to_remove-InGroup dir group_base [] = tt
to_remove-InGroup dir group_base ((name, is_dir) ∷ entries) = ground (
  arith,
  to_remove-InGroup dir group_base entries,
  Bool-cases is_dir,
  Bool-cases (is_archive name),
  Bool-cases (base (group_key (join dir name)) =t group_base),
)

read_result_InGroup :
    (text dir group : Text) (entries : Result (List (Text × Bool)))
    → All (InGroup (base group)) (
        removed (elim entries [
          | err e ↦ err (wrapped text e)
          | ok entries ↦ ok (to_remove dir (base group) entries)
        ]))
read_result_InGroup text dir group (err e) = tt
read_result_InGroup text dir group (ok entries) = to_remove-InGroup dir (base group) entries

cleanup_archive_files-InGroup :
    (sh : Shell) (j : Job)
    → All (InGroup (base (archive_group j))) (removed (cleanup_archive_files sh j))
unfolding cleanup_archive_files
cleanup_archive_files-InGroup sh j =
    let group = archive_group j in
    ground (
      arith,
      Bool-cases (group =t []),
      read_result_InGroup (codes "failed to read directory " ++ j.local_path) j.local_path group
          (sh.read_dir j.local_path),
    )

extraction_error-is_permanent :
    (e : Error) (output : Text) → is_permanent (extraction_error e output) ≡ true
unfolding is_permanent
extraction_error-is_permanent e output = ground arith

after_run_lem :
    (sh : Shell) (j : Job) (c : Bool)
    → All
        (InGroup (base (archive_group j)))
        (if c then removed (cleanup_archive_files sh j) else [])
after_run_lem sh j true = cleanup_archive_files-InGroup sh j
after_run_lem sh j false = tt

-- Every path that an extraction removes belongs to the archive group of its job.
pub execute_extraction-InGroup :
    (sh : Shell) (c : Bool) (j : Job)
    → All (InGroup (base (archive_group j))) (execute_extraction sh c j).1
unfolding execute_extraction
execute_extraction-InGroup sh c j =
    ground (arith, Option-cases (command sh j.remote_path j.local_path), after_run_lem sh j c)

-- An extraction that fails removes nothing, and its error is permanent, so that it is never retried.
execute_extraction-failed :
    (sh : Shell) (c : Bool) (j : Job) (e : Error)
    → (execute_extraction sh c j).0 ≡ some e
    → (is_permanent e ≡ true) × ((execute_extraction sh c j).1 ≡ [])
unfolding execute_extraction is_permanent
execute_extraction-failed sh c j e h =
    ground (arith, Option-cases (command sh j.remote_path j.local_path))
