-- ===== src/Common/Paths.antt =====
-- The functions of the package `path/filepath` that the program uses, on Unix.
pub mod Below
use Prim.Native.Nat.{ℕ}
use mathlib.Core.Bool.{Bool, not, ◌&&◌, ◌||◌}
use mathlib.Core.List.{List, [], ◌∷◌, ◌++◌, reverse}
use grabarr.Common.Tests.{◌==◌, if◌then◌else◌}
use grabarr.Common.Strings.{Text, codes, ◌=t◌, has_prefix}

-- `strings.Split` at one byte: the pieces of an empty text are one empty piece.
abbrev pub add_first : ℕ → List Text → List Text
add_first c [] = (c ∷ []) ∷ []
add_first c (piece ∷ pieces) = (c ∷ piece) ∷ pieces

abbrev pub split : ℕ → Text → List Text
split sep [] = [] ∷ []
split sep (c ∷ s) = if c == sep then [] ∷ split sep s else add_first c (split sep s)

-- `strings.Join`
abbrev pub join_by : Text → List Text → Text
join_by sep [] = []
join_by sep (t ∷ []) = t
join_by sep (t ∷ u ∷ ts) = t ++ sep ++ join_by sep (u ∷ ts)

abbrev pub is_abs : Text → Bool
is_abs path = has_prefix path (codes "/")

-- One element of a path on the stack of those kept, the last on top.
abbrev pub clean_element : (rooted : Bool) → List Text → Text → List Text
clean_element rooted [] part =
    if part =t [] || part =t codes "." || (part =t codes ".." && rooted) then [] else part ∷ []
clean_element rooted (top ∷ stack) part =
    if part =t [] || part =t codes "."
    then top ∷ stack
    else if part =t codes ".." && not (top =t codes "..")
    then stack
    else part ∷ top ∷ stack

abbrev pub clean_elements : Bool → List Text → List Text → List Text
clean_elements rooted stack [] = reverse stack
clean_elements rooted stack (part ∷ parts) =
    clean_elements rooted (clean_element rooted stack part) parts

abbrev pub clean : Text → Text
clean path =
    let kept = join_by (codes "/") (clean_elements (is_abs path) [] (split b'/' path)) in
    if is_abs path then codes "/" ++ kept else if kept =t [] then codes "." else kept

-- The text from the last separator on, with the separator; empty where there is none.
abbrev until : ℕ → Text → Text
until sep [] = []
until sep (c ∷ s) = if c == sep then [] else c ∷ until sep s

abbrev from_first : ℕ → Text → Text
from_first sep [] = []
from_first sep (c ∷ s) = if c == sep then c ∷ s else from_first sep s

-- Up to and with the last slash.
abbrev dir_part : Text → Text
dir_part path = reverse (from_first b'/' (reverse path))

abbrev pub dir : Text → Text
dir path = clean (dir_part path)

abbrev skip : ℕ → Text → Text
skip sep [] = []
skip sep (c ∷ s) = if c == sep then skip sep s else c ∷ s

abbrev pub base : Text → Text
base [] = codes "."
base (c ∷ s) =
    let name = reverse (until b'/' (skip b'/' (reverse (c ∷ s)))) in
    if name =t [] then codes "/" else name

-- On the reversed path: what stands behind the last dot, if no slash comes first.
abbrev ext_reversed : Text → Text → Text
ext_reversed acc [] = []
ext_reversed acc (c ∷ s) =
    if c == b'.' then c ∷ acc else if c == b'/' then [] else ext_reversed (c ∷ acc) s

abbrev pub ext : Text → Text
ext path = ext_reversed [] (reverse path)

abbrev pub join : Text → Text → Text
join [] [] = []
join [] (c ∷ s) = clean (c ∷ s)
join (c ∷ s) rel = clean ((c ∷ s) ++ codes "/" ++ rel)
