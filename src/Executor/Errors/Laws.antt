-- ===== src/Executor/Errors/Laws.antt =====
-- internal/executor/errors.go: which errors the classification makes permanent.
use grabarr.Common.{
  ◌≡◌, Bool, false, ◌&&◌, ◌||◌, Bool-cases, Option, Option-cases, none, some, any, ℤ, pos, eq_ℤ,
  contains, to_lower, Error, Text, arith,
}
use grabarr.Executor.Errors.{
  is_permanent, exit_code, permanent_codes, says_missing, permanent_patterns, classify_rsync_error,
  classify_rclone_error,
}

-- Whether an exit code makes an error permanent: always for seven of the codes, for 23 where the
-- standard error tells of a missing file.
abbrev pub is_permanent_exit : Error → Option ℤ → Bool
is_permanent_exit e none = false
is_permanent_exit e (some code) =
    any (eq_ℤ code) permanent_codes || (eq_ℤ code (pos 23) && says_missing e)

-- After the classification an error of rsync is permanent exactly if it was so before or its exit
-- code makes it so; in particular an error without an exit code stays as it is.
pub classify_rsync_error-is_permanent :
    (e : Error)
    → is_permanent (classify_rsync_error e) ≡ is_permanent e || is_permanent_exit e (exit_code e)
unfolding classify_rsync_error is_permanent
classify_rsync_error-is_permanent e = ground (arith, Option-cases (exit_code e))

-- An error of rclone is permanent exactly if its text in lower case contains one of the patterns.
classify_rclone_error-is_permanent :
    (message : Text)
    → is_permanent (classify_rclone_error message)
      ≡ any (contains (to_lower message)) permanent_patterns
unfolding classify_rclone_error is_permanent
classify_rclone_error-is_permanent message =
    ground (arith, Bool-cases (any (contains (to_lower message)) permanent_patterns))
