-- ===== src/Bruno/Patterns.antt =====
-- The two regular expressions of internal/brunogen/generator.go, and the functions of the package
-- `strings` that only the generator uses.
use grabarr.Common.{
  ℕ, suc, ◌-◌, Bool, not, ◌&&◌, ◌||◌, ◌==◌, ltb, Option, none, some, List, [], ◌∷◌, ◌++◌, map,
  reverse, length, drop, if◌then◌else◌, Text, codes, has_prefix,
}

-- A text cut at the matches of an expression: a byte outside of them, or the group of a match.
pub data Piece : Type 0 where
  byte : ℕ → Piece
  group : Text → Piece

-- How far an expression has matched, with what stands in the braces in reverse.
pub data Scan : Type 0 where
  outside : Scan
  opening : Scan
  inside : Text → Scan
  closing : Text → Scan

-- What the bytes that were held back are when they turn out to be no match.
abbrev pub held : Scan → Text
held outside = []
held opening = codes "{"
held (inside inner) = codes "{" ++ reverse inner
held (closing inner) = codes "{{" ++ reverse inner ++ codes "}"

-- A step gives the pieces that are settled. `\{([^}]+)\}`, where an empty brace is no match:
abbrev pub param_step : Scan → ℕ → List Piece × Scan
param_step (inside []) c =
    if c == b'}' then (byte b'{' ∷ byte c ∷ [], outside) else ([], inside (c ∷ []))
param_step (inside (d ∷ inner)) c =
    if c == b'}' then (group (reverse (d ∷ inner)) ∷ [], outside) else ([], inside (c ∷ d ∷ inner))
param_step _ c = if c == b'{' then ([], inside []) else (byte c ∷ [], outside)

abbrev pub param_end : Scan → List Piece
param_end st = map byte (held st)

unfoldable pub param_pieces : Scan → Text → List Piece
param_pieces st [] = param_end st
param_pieces st (c ∷ s) = let (out, st') = param_step st c in out ++ param_pieces st' s

-- `\{\{([^}]+)\}\}`: the group ends at the first `}`, and is a match if another one follows and it
-- is not empty.
abbrev pub var_outside : ℕ → List Piece × Scan
var_outside c = if c == b'{' then ([], opening) else (byte c ∷ [], outside)

abbrev pub var_step : Scan → ℕ → List Piece × Scan
var_step outside c = var_outside c
var_step opening c = if c == b'{' then ([], inside []) else (byte b'{' ∷ byte c ∷ [], outside)
var_step (inside inner) c = ([], if c == b'}' then closing inner else inside (c ∷ inner))
var_step (closing []) c = let (out, st) = var_outside c in (map byte (codes "{{}") ++ out, st)
var_step (closing (d ∷ inner)) c =
    let (out, st) = var_outside c in
    if c == b'}'
    then (group (reverse (d ∷ inner)) ∷ [], outside)
    else (map byte (held (closing (d ∷ inner))) ++ out, st)

abbrev pub var_end : Scan → List Piece
var_end (inside inner) = map byte (codes "{{" ++ reverse inner)
var_end st = map byte (held st)

unfoldable pub var_pieces : Scan → Text → List Piece
var_pieces st [] = var_end st
var_pieces st (c ∷ s) = let (out, st') = var_step st c in out ++ var_pieces st' s

-- The groups of all matches.
abbrev pub groups : List Piece → List Text
groups [] = []
groups (byte c ∷ pieces) = groups pieces
groups (group t ∷ pieces) = t ∷ groups pieces

-- `ReplaceAllStringFunc`, on the group instead of the match.
abbrev pub replace_all : (Text → Text) → List Piece → Text
replace_all f [] = []
replace_all f (byte c ∷ pieces) = c ∷ replace_all f pieces
replace_all f (group t ∷ pieces) = f t ++ replace_all f pieces

-- `strings.TrimLeft` and `strings.Trim` of bytes.
abbrev pub trim_left : (ℕ → Bool) → Text → Text
trim_left cut [] = []
trim_left cut (c ∷ s) = if cut c then trim_left cut s else c ∷ s

abbrev pub trim : (ℕ → Bool) → Text → Text
trim cut s = reverse (trim_left cut (reverse (trim_left cut s)))

-- The first piece of `strings.Split` at a byte.
abbrev pub first_part : ℕ → Text → Text
first_part sep [] = []
first_part sep (c ∷ s) = if c == sep then [] else c ∷ first_part sep s

-- What stands behind the first occurrence of a text, by `strings.Index`.
abbrev pub after_first : Text → Text → Option Text
after_first part [] = if has_prefix [] part then some [] else none
after_first part (c ∷ s) =
    if has_prefix (c ∷ s) part then some (drop (length part) (c ∷ s)) else after_first part s

-- What stands before the first occurrence of a byte.
abbrev pub before_first : ℕ → Text → Option Text
before_first sep [] = none
before_first sep (c ∷ s) =
    let rest = before_first sep s in
    if c == sep then some [] else elim rest [ none ↦ none | some t ↦ some (c ∷ t) ]

-- `strings.Replace` of one occurrence of a text that is not empty.
abbrev pub replace_first : (old new : Text) → Text → Text
replace_first old new [] = []
replace_first old new (c ∷ s) =
    if has_prefix (c ∷ s) old then new ++ drop (length old) (c ∷ s) else c ∷ replace_first old new s

-- `strings.Title` on ASCII: a word's first letter is a capital; what is no letter, digit or
-- underscore ends a word.
abbrev is_between : ℕ → ℕ → ℕ → Bool
is_between low high c = ltb low (suc c) && ltb c (suc high)

abbrev is_separator : ℕ → Bool
is_separator c =
    not (is_between b'0' b'9' c || is_between b'A' b'Z' c || is_between b'a' b'z' c || c == b'_')

abbrev title_from : ℕ → Text → Text
title_from before [] = []
title_from before (c ∷ s) =
    (if is_separator before && is_between b'a' b'z' c then c - 32 else c) ∷ title_from c s

abbrev pub title : Text → Text
title = title_from b' '
