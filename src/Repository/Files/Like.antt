-- ===== src/Repository/Files/Like.antt =====
-- SQL's LIKE, as GetRemoteFilesByPathPrefix in internal/repository/remote_files.go uses it: ASCII
-- letters match in either case, `%` matches any text and `_` any one byte.
use grabarr.Common.{ℕ, Bool, true, false, ◌&&◌, ◌||◌, ◌==◌, [], ◌∷◌, if◌then◌else◌, Text, lower}

-- Whether some end of the text passes the test.
abbrev pub some_end : (Text → Bool) → Text → Bool
some_end test [] = test []
some_end test (c ∷ s) = test (c ∷ s) || some_end test s

abbrev like_one : ℕ → (Text → Bool) → Text → Bool
like_one p rest [] = false
like_one p rest (c ∷ s) = (p == b'_' || lower p == lower c) && rest s

abbrev pub like : Text → Text → Bool
like [] [] = true
like [] (c ∷ s) = false
like (p ∷ ps) s = if p == b'%' then some_end (like ps) s else like_one p (like ps) s
