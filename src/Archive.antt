-- ===== src/Archive.antt =====
-- internal/archive/archive.go. The two regular expressions are functions on texts.
pub mod Groups
use grabarr.Common.{
  ℕ, Bool, true, false, not, ◌&&◌, ◌||◌, Option, none, some, List, [], ◌∷◌, ◌++◌, ◌==◌,
  if◌then◌else◌, any, drop, Text, codes, ◌=t◌, has_prefix, has_suffix, trim_prefix, lower, to_lower,
  is_digit, reverse, dir, base, ext, join,
}

-- `(?i)^r\d{2}$`
abbrev pub is_rnn : Text → Bool
is_rnn (a ∷ b ∷ c ∷ []) = lower a == b'r' && is_digit b && is_digit c
is_rnn _ = false

abbrev digits : Text → Text
digits [] = []
digits (c ∷ s) = if is_digit c then c ∷ digits s else []

abbrev pub after_digits : Text → Text
after_digits [] = []
after_digits (c ∷ s) = if is_digit c then after_digits s else c ∷ s

-- `(?i)\.part(\d+)\.rar$` at the start of a text: the digits of the match.
abbrev pub part_at : Text → Option Text
part_at s =
    let number = digits (drop 5 s) in
    if has_prefix (to_lower s) (codes ".part")
      && (not (number =t []) && to_lower (after_digits (drop 5 s)) =t codes ".rar")
    then some number
    else none

abbrev before : ℕ → Option (Text × Text) → Option (Text × Text)
before c none = none
before c (some (prefix, number)) = some (c ∷ prefix, number)

-- The leftmost match: what stands before it, and its digits.
unfoldable pub find_part : Text → Option (Text × Text)
find_part [] = none
find_part (c ∷ s) = elim (part_at (c ∷ s)) [
  | some number ↦ some ([], number)
  | none ↦ before c (find_part s)
]

unfoldable pub is_archive : Text → Bool
is_archive filename =
    let e = to_lower (trim_prefix (ext filename) (codes ".")) in
    if e =t codes "rar" || e =t codes "zip" then true else is_rnn e

-- `strings.TrimSuffix`
abbrev trim_suffix : Text → Text → Text
trim_suffix s suffix =
    if has_suffix s suffix then reverse (trim_prefix (reverse s) (reverse suffix)) else s

group_key_old : Text → Text
group_key_old path =
    let name = base path in
    let e = trim_prefix (ext name) (codes ".") in
    let l = to_lower e in
    if l =t codes "rar" || l =t codes "zip" || is_rnn l
    then join (dir path) (trim_suffix name (codes "." ++ e))
    else path

unfoldable pub group_key : Text → Text
unfolding find_part group_key_old
group_key path = elim (find_part path) [ some (prefix, _) ↦ prefix | none ↦ group_key_old path ]

-- `strings.TrimLeft(s, "0")`
abbrev pub trim_zeros : Text → Text
trim_zeros [] = []
trim_zeros (c ∷ s) = if c == b'0' then trim_zeros s else c ∷ s

-- A `.rar` file that is no `.partN.rar`; the name is in lower case.
abbrev pub is_plain_rar : Text → Bool
is_plain_rar l = has_suffix l (codes ".rar") && elim (find_part l) [ none ↦ true | some _ ↦ false ]

is_first_other : Text → List Text → Bool
unfolding find_part
is_first_other l group_files =
    if has_suffix l (codes ".zip")
    then true
    else if to_lower (trim_prefix (ext l) (codes ".")) =t codes "r00"
    then not (any (λ other. is_plain_rar (to_lower other)) group_files)
    else false

unfoldable pub is_first_part : Text → List Text → Bool
unfolding is_first_other find_part
is_first_part filename group_files =
    let l = to_lower filename in
    if is_plain_rar l then true else elim (find_part l) [
      | some (_, number) ↦ trim_zeros number =t codes "1" || trim_zeros number =t []
      | none ↦ is_first_other l group_files
    ]

-- `ArchiveExtensionPatterns`: the patterns for `find -name`.
unfoldable pub archive_extension_patterns : List Text → List Text
archive_extension_patterns [] = []
archive_extension_patterns (e ∷ es) =
    (if to_lower e =t codes "rar"
      then codes "*.rar" ∷ codes "*.r[0-9][0-9]" ∷ []
      else (codes "*." ++ e) ∷ [])
    ++ archive_extension_patterns es
