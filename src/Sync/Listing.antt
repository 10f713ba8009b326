-- ===== src/Sync/Listing.antt =====
-- internal/sync/scanner.go: the listing of a watched path. Regular expressions and ssh are outside:
-- `Seedbox` says what they give. A line of the output is read as bytes.
pub mod RoundTrip
use grabarr.Common.{
  ℕ, zero, suc, ◌+◌, ◌*◌, ◌-◌, Bool, ◌&&◌, ◌||◌, ◌==◌, Option, none, some, List, [], ◌∷◌, ◌++◌,
  if◌then◌else◌, any, drop, length, leb, ltb, ℤ, pos, negsuc, Text, codes, ◌=t◌, has_prefix,
  trim_prefix, is_digit, reverse, split, join_by, dir, base, ext, join, Error, wrapped, Result, ok,
  err, Action, pure, fail, ◌>>=◌,
}
use grabarr.Models.RemoteFile.{FileStatus, RemoteFile}
use grabarr.Config.{WatchedPath, RemoteConfig}
use grabarr.Archive.{archive_extension_patterns}
use grabarr.Repository.Db.{World, Db, time_now}

-- `compile` is `regexp.Compile`, with the test that the expression stands for; `ssh` gives the
-- standard output of a command on a remote, or the error with the standard error; `ctx_err` is `ctx.Err()` by the number of
-- the call.
pub record Seedbox : Type 0 where
  pub compile : Text → Result (Text → Bool)
  pub ssh : RemoteConfig → (command : Text) → Result Text
  pub ctx_err : ℕ → Option Error

-- `strings.TrimSpace`, on ASCII
abbrev pub is_space : ℕ → Bool
is_space c = c == 32 || (leb 9 c && leb c 13)

abbrev pub trim_left : Text → Text
trim_left [] = []
trim_left (c ∷ s) = if is_space c then trim_left s else c ∷ s

abbrev pub trim_space : Text → Text
trim_space s = reverse (trim_left (reverse (trim_left s)))

-- `strings.SplitN(line, "\t", 2)`: the two parts, or none where there is no tab.
unfoldable pub cut : ℕ → Text → Option (Text × Text)
cut sep [] = none
cut sep (c ∷ s) =
    let rest = cut sep s in
    if c == sep then some ([], s) else elim rest [ none ↦ none | some (a, b) ↦ some (c ∷ a, b) ]

-- `strconv.ParseInt(s, 10, 64)`: none is an error.
abbrev pub digits_value : ℕ → Text → Option ℕ
digits_value acc [] = some acc
digits_value acc (c ∷ s) = if is_digit c then digits_value (10 * acc + (c - b'0')) s else none

abbrev pub magnitude : Text → Option ℕ
magnitude [] = none
magnitude (c ∷ s) = digits_value 0 (c ∷ s)

abbrev negative : ℕ → Option ℤ
negative zero = some (pos 0)
negative (suc n) = if ltb n 9223372036854775808 then some (negsuc n) else none

abbrev positive : ℕ → Option ℤ
positive n = if ltb n 9223372036854775808 then some (pos n) else none

unfoldable pub parse_int : Text → Option ℤ
parse_int [] = none
parse_int (c ∷ s) =
    if c == b'-'
    then elim (magnitude s) [ none ↦ none | some n ↦ negative n ]
    else if c == b'+'
    then elim (magnitude s) [ none ↦ none | some n ↦ positive n ]
    else elim (magnitude (c ∷ s)) [ none ↦ none | some n ↦ positive n ]

-- A name that a compiled pattern matches.
abbrev pub matches_any : Text → List (Text → Bool) → Bool
matches_any name = any (λ matches. matches name)

abbrev pub or_zero : Option ℤ → ℤ
or_zero none = pos 0
or_zero (some n) = n

abbrev pub size_of : Text → ℤ
size_of text = or_zero (parse_int (trim_space text))

abbrev pub line_file : (watched_path path size : Text) → RemoteFile
line_file watched_path path size = record {
  id = 0;
  remote_path = path;
  name = base path;
  size = size_of size;
  extension = trim_prefix (ext (base path)) (codes ".");
  status = FileStatus.on_seedbox;
  job_id = none;
  watched_path = watched_path;
  first_seen_at = 0;
  last_seen_at = 0;
  updated_at = 0;
}

abbrev pub parse_parts :
    (watched_path : Text) → List (Text → Bool) → Option (Text × Text) → Option RemoteFile
parse_parts watched_path excludes none = none
parse_parts watched_path excludes (some (path, size)) =
    if matches_any (base path) excludes then none else some (line_file watched_path path size)

-- The record of a line's file but for its time; none where the loop goes on without one.
unfoldable pub parse_line : (line watched_path : Text) → List (Text → Bool) → Option RemoteFile
unfolding cut parse_int
parse_line line watched_path excludes = parse_parts watched_path excludes (cut 9 (trim_space line))

module _ (w : World) (watched_path : Text) (excludes : List (Text → Bool)) where
  abbrev pub keep_line : Option RemoteFile → List RemoteFile → Action Db (List RemoteFile)
  keep_line none kept = pure kept
  keep_line (some f) kept = do now ← time_now w; pure (kept ++ record f { last_seen_at = now } ∷ [])

  unfoldable pub parse_lines : List Text → List RemoteFile → Action Db (List RemoteFile)
  unfolding parse_line
  parse_lines [] kept = pure kept
  parse_lines (line ∷ lines) kept =
      keep_line (parse_line line watched_path excludes) kept >>= parse_lines lines

  unfoldable pub parse_ssh_find_output : Text → Action Db (List RemoteFile)
  unfolding parse_lines
  parse_ssh_find_output output = parse_lines (split 10 (trim_space output)) []

module _ (s : Seedbox) where
  unfoldable pub compile_patterns : List Text → Result (List (Text → Bool))
  compile_patterns [] = ok []
  compile_patterns (p ∷ ps) = elim (s.compile p) [
    | err e ↦ err (wrapped (codes "invalid pattern \"" ++ (p ++ codes "\"")) e)
    | ok test ↦ elim (compile_patterns ps) [ err e ↦ err e | ok tests ↦ ok (test ∷ tests) ]
  ]

abbrev quoted : Text → Text → Text
quoted prefix pattern = codes "-name '" ++ (prefix ++ (pattern ++ codes "'"))

abbrev each : (Text → Text) → List Text → List Text
each f [] = []
each f (t ∷ ts) = f t ∷ each f ts

-- The command that lists a watched path.
unfoldable pub find_command : WatchedPath → Text
find_command wp =
    let depth = if wp.recursive then [] else codes "-maxdepth 1" in
    let names =
      each (quoted (codes "*.")) wp.extensions
      ++ each (quoted []) (archive_extension_patterns wp.archive_extensions) in
    let filter =
      if leb 1 (length names)
      then codes "\\( " ++ (join_by (codes " -o ") names ++ codes " \\)")
      else [] in
    codes "find "
    ++ (wp.remote_path
        ++ (codes " -type f "
            ++ (depth ++ (codes " " ++ (filter ++ codes " -printf '%p\\t%s\\n' 2>/dev/null")))))

module _ (s : Seedbox) (w : World) where
  unfoldable pub ssh_list_files :
      RemoteConfig → WatchedPath → List (Text → Bool) → Action Db (List RemoteFile)
  unfolding find_command parse_ssh_find_output
  ssh_list_files remote wp excludes = elim (s.ssh remote (find_command wp)) [
    | err e ↦ fail (wrapped (codes "ssh find failed") e)
    | ok output ↦ parse_ssh_find_output w wp.remote_path excludes output
  ]

-- The local directory for a file, with the directories below the watched path.
unfoldable pub local_path_for_remote_file : (remote_path watched_path base_local_path : Text) → Text
local_path_for_remote_file remote_path watched_path base_local_path =
    let rel =
      if has_prefix remote_path watched_path
      then drop (length watched_path) remote_path
      else remote_path in
    if dir rel =t codes "." || dir rel =t []
    then base_local_path
    else join base_local_path (dir rel) ++ codes "/"
