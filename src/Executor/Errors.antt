-- ===== src/Executor/Errors.antt =====
-- internal/executor/errors.go. `errors.As` walks the chain of causes.
pub mod Laws
use grabarr.Common.{
  ℕ, Bool, true, false, ◌&&◌, ◌||◌, Option, none, some, List, [], ◌∷◌, ◌++◌, if◌then◌else◌, any, ℤ,
  pos, eq_ℤ, decimal, Text, codes, contains, to_lower, Error, plain, wrapped, permanent,
  permanent_bare, transfer, exit_error, tool_missing, canceled,
}

unfoldable pub is_permanent : Error → Bool
is_permanent (plain t) = false
is_permanent (wrapped t e) = is_permanent e
is_permanent (permanent t e) = true
is_permanent (permanent_bare t) = true
is_permanent (transfer e stderr) = is_permanent e
is_permanent (exit_error code t) = false
is_permanent (tool_missing t) = false
is_permanent canceled = false

-- The exit code of the first `exec.ExitError` in the chain.
abbrev pub exit_code : Error → Option ℤ
exit_code (wrapped t e) = exit_code e
exit_code (permanent t e) = exit_code e
exit_code (transfer e stderr) = exit_code e
exit_code (exit_error code t) = some code
exit_code _ = none

-- The standard error of the first `rsync.TransferError` in the chain.
abbrev pub transfer_stderr : Error → Option Text
transfer_stderr (wrapped t e) = transfer_stderr e
transfer_stderr (permanent t e) = transfer_stderr e
transfer_stderr (transfer e stderr) = some stderr
transfer_stderr _ = none

abbrev pub permanent_codes : List ℤ
permanent_codes = pos 1 ∷ pos 2 ∷ pos 3 ∷ pos 4 ∷ pos 5 ∷ pos 6 ∷ pos 24 ∷ []

abbrev pub says_missing : Error → Bool
says_missing e = elim (transfer_stderr e) [
  | none ↦ false
  | some stderr ↦ contains (to_lower stderr) (codes "no such file or directory")
]

abbrev rsync_failure : ℤ → Error → Error
rsync_failure code =
    permanent (codes "rsync permanent failure (exit " ++ (decimal code ++ codes ")"))

abbrev classify_code : Option ℤ → Error → Error
classify_code none e = e
classify_code (some code) e =
    if any (eq_ℤ code) permanent_codes
    then rsync_failure code e
    else if eq_ℤ code (pos 23)
    then if says_missing e then rsync_failure code e else e
    else e

unfoldable pub classify_rsync_error : Error → Error
classify_rsync_error e = classify_code (exit_code e) e

abbrev pub permanent_patterns : List Text
permanent_patterns =
    codes "not found"
    ∷ codes "no such file"
    ∷ codes "no such directory"
    ∷ codes "permission denied"
    ∷ codes "access denied"
    ∷ codes "401"
    ∷ codes "403"
    ∷ codes "404"
    ∷ []

unfoldable pub classify_rclone_error : Text → Error
classify_rclone_error message =
    if any (contains (to_lower message)) permanent_patterns
    then permanent (codes "rclone permanent failure") (plain message)
    else plain (codes "rclone job failed: " ++ message)
