-- ===== src/Executor/Extract.antt =====
-- internal/executor/extract.go. The shell and the directory listing are arguments; the paths for
-- which `os.Remove` is called are part of the result.
pub mod Laws
use grabarr.Common.{
  ℕ, Bool, true, false, ◌||◌, Option, none, some, List, [], ◌∷◌, ◌++◌, if◌then◌else◌, Text, codes,
  ◌=t◌, has_prefix, to_lower, base, ext, join, Error, wrapped, permanent_bare, tool_missing,
  error_text, Result, ok, err,
}
use grabarr.Archive.{is_archive, group_key}
use grabarr.Models.Job.{Job, archive_group}

pub record Shell : Type 0 where
  pub has_unrar : Bool
  -- The error and the combined output of a command line.
  pub run : List Text → Option Error × Text
  -- The entries of a directory, each with whether it is one itself.
  pub read_dir : Text → Result (List (Text × Bool))

abbrev seven_zip : (path dest : Text) → List Text
seven_zip path dest = codes "7z" ∷ codes "x" ∷ codes "-aos" ∷ (codes "-o" ++ dest) ∷ path ∷ []

-- The command line for an archive, by its extension.
abbrev pub command : Shell → (path dest : Text) → Option (List Text)
command sh path dest =
    let e = to_lower (ext path) in
    if e =t codes ".rar" || has_prefix e (codes ".r")
    then if sh.has_unrar
      then some (codes "unrar" ∷ codes "x" ∷ codes "-o-" ∷ path ∷ dest ∷ [])
      else some (seven_zip path dest)
    else if e =t codes ".zip"
    then some (seven_zip path dest)
    else none

abbrev is_tool_missing : Error → Bool
is_tool_missing (tool_missing t) = true
is_tool_missing _ = false

abbrev extraction_error : Error → Text → Error
extraction_error e output =
    if is_tool_missing e
    then permanent_bare (codes "extraction tool not found: " ++ error_text e)
    else permanent_bare (codes "extraction failed: " ++ (error_text e ++ (codes ": " ++ output)))

-- The loop of `cleanupArchiveFiles`: the paths to remove.
unfoldable pub to_remove : (dir group_base : Text) → List (Text × Bool) → List Text
to_remove dir group_base [] = []
to_remove dir group_base ((name, is_dir) ∷ entries) =
    let rest = to_remove dir group_base entries in
    if is_dir
    then rest
    else if is_archive name
    then if base (group_key (join dir name)) =t group_base then join dir name ∷ rest else rest
    else rest

unfoldable pub cleanup_archive_files : Shell → Job → Result (List Text)
unfolding to_remove
cleanup_archive_files sh j =
    if archive_group j =t [] then ok [] else elim (sh.read_dir j.local_path) [
      | err e ↦ err (wrapped (codes "failed to read directory " ++ j.local_path) e)
      | ok entries ↦ ok (to_remove j.local_path (base (archive_group j)) entries)
    ]

abbrev removed : Result (List Text) → List Text
removed (ok paths) = paths
removed (err e) = []

-- The error that is returned, and the paths removed; a failed cleanup fails no job.
unfoldable pub execute_extraction :
    Shell → (cleanup_archives : Bool) → Job → Option Error × List Text
unfolding cleanup_archive_files
execute_extraction sh cleanup_archives j = elim (command sh j.remote_path j.local_path) [
  | none ↦ (
    some (permanent_bare (codes "unsupported archive type: " ++ to_lower (ext j.remote_path))),
    [],
  )
  | some argv ↦
      let (failed, output) = sh.run argv in
      elim failed [
        | some e ↦ (some (extraction_error e output), [])
        | none ↦ (none, if cleanup_archives then removed (cleanup_archive_files sh j) else [])
      ]
]
