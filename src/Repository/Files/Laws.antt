-- ===== src/Repository/Files/Laws.antt =====
-- internal/repository/remote_files.go: what the statements do to the rows of remote_files.
use grabarr.Common.{
  ℕ, suc, ◌≡◌, refl, Bool, true, false, not, ◌==◌, Bool-cases, Option, Option-cases, none, some,
  List, [], ◌∷◌, ◌++◌, if◌then◌else◌, select, Text, ◌=t◌, =t_iff, =t_refl, ok, ◌⊎◌, arith,
}
use grabarr.Models.Job.{Time}
use grabarr.Models.RemoteFile.{RemoteFile}
use grabarr.Repository.Db.{World, Db, update_where}
use grabarr.Repository.Files.{
  find_path, find_file, is_stale, seen_again, upsert_remote_file, delete_stale_remote_files,
}

abbrev pub changed_row : ℕ → (RemoteFile → RemoteFile) → Option RemoteFile → Option RemoteFile
changed_row id change none = none
changed_row id change (some f) = some (if f.id == id then change f else f)

pub find_file-update :
    (id : ℕ) (change : RemoteFile → RemoteFile) (k : ℕ) (fs : List RemoteFile)
    → ((f : RemoteFile) → (change f).id ≡ f.id)
    → find_file k (update_where (λ f. f.id == id) change fs)
      ≡ changed_row id change (find_file k fs)
find_file-update id change k [] h = refl
find_file-update id change k (f ∷ fs) h = ground (arith, h f, find_file-update id change k fs h)

-- No two rows share a path.
abbrev pub HasUniquePaths : List RemoteFile → Type 0
HasUniquePaths [] = Unit
HasUniquePaths (f ∷ fs) = (find_path f.remote_path fs ≡ none) × HasUniquePaths fs

find_path-select-none :
    (test : RemoteFile → Bool) (path : Text) (fs : List RemoteFile)
    → find_path path fs ≡ none
    → find_path path (select test fs) ≡ none
find_path-select-none test path [] h = refl
find_path-select-none test path (f ∷ fs) h = ground (arith, find_path-select-none test path fs)

abbrev pub kept_row : (RemoteFile → Bool) → Option RemoteFile → Option RemoteFile
kept_row test none = none
kept_row test (some f) = if test f then some f else none

find_path-select :
    (test : RemoteFile → Bool) (path : Text) (fs : List RemoteFile)
    → HasUniquePaths fs
    → find_path path (select test fs) ≡ kept_row test (find_path path fs)
find_path-select test path [] u = refl
find_path-select test path (f ∷ fs) (fresh, u) = ground (
  arith,
  =t_iff f.remote_path path,
  find_path-select test path fs u,
  find_path-select-none test path fs,
  Bool-cases (test f),
  fresh,
)

find_path-update :
    (path other : Text) (now : Time) (f : RemoteFile) (fs : List RemoteFile)
    → find_path other (update_where (λ r. r.remote_path =t path) (seen_again now f) fs)
      ≡ elim (find_path other fs) [
        | none ↦ none
        | some r ↦ some (if other =t path then seen_again now f r else r)
      ]
find_path-update path other now f [] = refl
find_path-update path other now f (r ∷ rs) =
    ground (arith, =t_iff r.remote_path other, find_path-update path other now f rs)

find_path-append :
    (path : Text) (fs : List RemoteFile) (f : RemoteFile)
    → find_path path (fs ++ f ∷ []) ≡ elim (find_path path fs) [
      | some r ↦ some r
      | none ↦ if f.remote_path =t path then some f else none
    ]
find_path-append path [] f = refl
find_path-append path (r ∷ rs) f = ground (arith, find_path-append path rs f)

abbrev pub in_row : {A : Type 0} → (RemoteFile → A) → Option RemoteFile → Option A
in_row field none = none
in_row field (some r) = some (field r)

module _ (w : World) where
  -- Where no two rows share a path and the statement does not fail, deleting the stale files of a
  -- watched path removes exactly the rows of that path that were last seen before the given time.
  delete_stale_remote_files-row :
      (watched path : Text) (seen_after : Time) (db : Db)
      → HasUniquePaths db.files
      → w.fault db.statements ≡ none
      → let (r, db') = delete_stale_remote_files w watched seen_after db in
        (r ≡ ok tt)
        × (find_path path db'.files
            ≡ kept_row (λ f. not (is_stale watched seen_after f)) (find_path path db.files))
  unfolding delete_stale_remote_files
  delete_stale_remote_files-row watched path seen_after db u quiet =
      ground
        (arith, quiet, find_path-select (λ f. not (is_stale watched seen_after f)) path db.files u)

  -- Where the statement does not fail, upserting a file that was seen at a time other than zero
  -- gives the row of its path that time, and keeps the status and the job of a row that was there
  -- before; a new row has the status of the file and no job. The row of any other path is as it
  -- was.
  pub upsert_remote_file-row :
      (f : RemoteFile) (other : Text) (db : Db)
      → (f.last_seen_at == 0) ≡ false
      → w.fault db.statements ≡ none
      → let files = (upsert_remote_file w f db).1.files in
        let old = find_path f.remote_path db.files in
        (in_row (λ r. r.last_seen_at) (find_path f.remote_path files) ≡ some f.last_seen_at)
        × (in_row (λ r. r.status) (find_path f.remote_path files)
            ≡ some (elim old [ none ↦ f.status | some r ↦ r.status ]))
        × (in_row (λ r. r.job_id) (find_path f.remote_path files)
            ≡ some (elim old [ none ↦ none | some r ↦ r.job_id ]))
        × ((other =t f.remote_path) ≡ true ⊎ (find_path other files ≡ find_path other db.files))
  unfolding upsert_remote_file
  upsert_remote_file-row f other db seen quiet =
      let path = f.remote_path in
      let now = w.now (suc db.readings) in
      let dated = record f {
        first_seen_at = if f.first_seen_at == 0 then w.now db.readings else f.first_seen_at;
      } in
      let row = record dated { id = suc db.last_file_id; job_id = none; updated_at = now } in
      (
        ground (
          arith,
          quiet,
          =t_refl path,
          Option-cases (find_path path db.files),
          find_path-update path path now dated db.files,
          find_path-append path db.files row,
        ),
        ground (
          arith,
          quiet,
          =t_refl path,
          Option-cases (find_path path db.files),
          find_path-update path path now dated db.files,
          find_path-append path db.files row,
        ),
        ground (
          arith,
          quiet,
          =t_refl path,
          Option-cases (find_path path db.files),
          find_path-update path path now dated db.files,
          find_path-append path db.files row,
        ),
        ground (
          arith,
          quiet,
          Bool-cases (other =t path),
          Option-cases (find_path path db.files),
          =t_iff path other,
          =t_iff other path,
          Option-cases (find_path other db.files),
          find_path-update path other now dated db.files,
          find_path-append other db.files row,
        ),
      )
