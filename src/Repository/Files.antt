-- ===== src/Repository/Files.antt =====
-- internal/repository/remote_files.go
pub mod Like
pub mod Laws
use Like.{like}
use grabarr.Common.{
  ℕ, suc, Bool, true, false, not, ◌&&◌, ◌||◌, ◌==◌, Option, none, some, List, [], ◌∷◌, ◌++◌,
  if◌then◌else◌, length, select, sort_by, take, drop, ltb, leb_ℤ, ℤ, pos, pos_part, decimal, Text,
  codes, ◌=t◌, trim_prefix, Error, plain, Result, ok, err, Action, pure, fail, get, modify, ◌>>=◌,
  ◌>>◌,
}
use grabarr.Models.Job.{Time}
use grabarr.Models.RemoteFile.{FileStatus, file_status_eq, RemoteFile, RemoteFileFilter}
use grabarr.Repository.Db.{World, Db, exec, time_now, update_where}

abbrev pub find_path : Text → List RemoteFile → Option RemoteFile
find_path path [] = none
find_path path (f ∷ fs) = if f.remote_path =t path then some f else find_path path fs

abbrev pub find_file : ℕ → List RemoteFile → Option RemoteFile
find_file id [] = none
find_file id (f ∷ fs) = if f.id == id then some f else find_file id fs

abbrev pub linked_to : ℕ → RemoteFile → Bool
linked_to job_id f = elim f.job_id [ none ↦ false | some j ↦ j == job_id ]

abbrev pub is_linked : RemoteFile → Bool
is_linked f = elim f.job_id [ none ↦ false | some j ↦ true ]

abbrev pub is_stale : Text → Time → RemoteFile → Bool
is_stale watched_path cutoff f = f.watched_path =t watched_path && ltb f.last_seen_at cutoff

abbrev pub file_matches : RemoteFileFilter → RemoteFile → Bool
file_matches filter f =
    (file_status_eq filter.status FileStatus.any_status || file_status_eq f.status filter.status)
    && (filter.watched_path =t [] || f.watched_path =t filter.watched_path)
    && (filter.extension =t [] || f.extension =t filter.extension)

-- `if t.IsZero() { t = now }`
abbrev or_now : Time → Time → Time
or_now now t = if t == 0 then now else t

-- The columns of the ON CONFLICT clause, and the trigger's `updated_at`.
abbrev pub seen_again : Time → RemoteFile → RemoteFile → RemoteFile
seen_again now f row = record row {
  name = f.name;
  size = f.size;
  watched_path = f.watched_path;
  last_seen_at = f.last_seen_at;
  updated_at = now;
}

module _ (w : World) where
  -- INSERT … ON CONFLICT(remote_path) DO UPDATE … RETURNING
  abbrev pub upsert_row : RemoteFile → Action Db RemoteFile
  upsert_row f = do
    now ← time_now w
    db ← get
    elim (find_path f.remote_path db.files) [
      | some row ↦
          modify (λ s. record s {
            files = update_where (λ r. r.remote_path =t f.remote_path) (seen_again now f) s.files;
          })
          >> pure (record f { id = row.id; first_seen_at = row.first_seen_at; updated_at = now })
      | none ↦
          modify (λ s. record s {
            files =
                s.files
                ++ record f { id = suc s.last_file_id; job_id = none; updated_at = now } ∷ [];
            last_file_id = suc s.last_file_id;
          })
          >> pure (record f { id = suc db.last_file_id; updated_at = now })
    ]

  unfoldable pub upsert_remote_file : RemoteFile → Action Db RemoteFile
  upsert_remote_file f = do
    now ← time_now w
    let dated = record f {
      first_seen_at = or_now now f.first_seen_at;
      last_seen_at = or_now now f.last_seen_at;
    }
    exec w (codes "failed to upsert remote file") (upsert_row dated)

  abbrev select_files : Text → (RemoteFile → Bool) → Action Db (List RemoteFile)
  select_files text test = exec w text (do db ← get; pure (select test db.files))

  unfoldable pub get_remote_files : RemoteFileFilter → Action Db (List RemoteFile)
  get_remote_files filter = do
    rows ← select_files (codes "failed to query remote files") (file_matches filter)
    let newest = sort_by (λ a b. ltb b.last_seen_at a.last_seen_at) rows
    let limit = if leb_ℤ filter.limit (pos 0) then 100 else pos_part filter.limit
    pure (take limit (drop (pos_part filter.offset) newest))

  unfoldable pub count_remote_files : RemoteFileFilter → Action Db ℕ
  count_remote_files filter = do
    rows ← select_files (codes "failed to count remote files") (file_matches filter)
    pure (length rows)

  unfoldable pub get_remote_file : ℕ → Action Db RemoteFile
  get_remote_file id = exec w (codes "failed to get remote file") (do
    db ← get
    elim (find_file id db.files) [
      | some f ↦ pure f
      | none ↦ fail (plain (codes "remote file " ++ decimal (pos id) ++ codes " not found"))
    ])

  -- A path that is not there is no error.
  unfoldable pub get_remote_file_by_path : Text → Action Db (Option RemoteFile)
  get_remote_file_by_path path =
      exec w (codes "failed to get remote file by path")
        (do db ← get; pure (find_path path db.files))

  abbrev first : List RemoteFile → Option RemoteFile
  first [] = none
  first (f ∷ fs) = some f

  unfoldable pub get_remote_file_by_job_id : ℕ → Action Db (Option RemoteFile)
  get_remote_file_by_job_id job_id = do
    rows ← select_files (codes "failed to get remote file by job id") (linked_to job_id)
    pure (first rows)

  abbrev change_file : Text → ℕ → (RemoteFile → RemoteFile) → Action Db Unit
  change_file text id change = exec w text (do
    now ← time_now w
    modify (λ s. record s {
      files = update_where (λ f. f.id == id) (λ f. record (change f) { updated_at = now }) s.files;
    }))

  unfoldable pub update_remote_file_status : ℕ → FileStatus → Action Db Unit
  update_remote_file_status id status =
      change_file (codes "failed to update remote file status") id
        (λ f. record f { status = status })

  unfoldable pub link_remote_file_to_job : (remote_file_id job_id : ℕ) → FileStatus → Action Db Unit
  link_remote_file_to_job id job_id status =
      change_file (codes "failed to link remote file to job") id
        (λ f. record f { job_id = some job_id; status = status })

  unfoldable pub get_remote_files_linked_to_jobs : Action Db (List RemoteFile)
  get_remote_files_linked_to_jobs =
      select_files (codes "failed to query linked remote files") is_linked

  unfoldable pub get_stale_remote_files_with_jobs : Text → Time → Action Db (List RemoteFile)
  get_stale_remote_files_with_jobs watched_path seen_before =
      select_files (codes "failed to query stale remote files with jobs")
        (λ f. is_stale watched_path seen_before f && is_linked f)

  unfoldable pub get_remote_files_by_path_prefix :
      (watched_root path_prefix : Text) → Action Db (List RemoteFile)
  get_remote_files_by_path_prefix watched_root path_prefix =
      let prefix = watched_root ++ trim_prefix path_prefix (codes "/") in
      select_files (codes "failed to query remote files by path prefix") (λ f.
        like (prefix ++ codes "%") f.remote_path && file_status_eq f.status FileStatus.on_seedbox)

  unfoldable pub delete_stale_remote_files : Text → Time → Action Db Unit
  delete_stale_remote_files watched_path seen_after =
      exec w (codes "failed to delete stale remote files") (
        modify (λ s. record s {
          files = select (λ f. not (is_stale watched_path seen_after f)) s.files;
        }))
