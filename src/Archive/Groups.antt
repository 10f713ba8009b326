-- ===== src/Archive/Groups.antt =====
-- internal/archive/archive.go: the group of a `.partN.rar` file.
use grabarr.Common.{
  ℕ, suc, ◌+◌, ◌≤◌, ◌≡◌, refl, true, false, Bool-cases, none, some, [], ◌∷◌, ◌++◌, length, drop,
  Text, codes, ◌=t◌, =t_iff, to_lower, is_digit, All, arith,
}
use grabarr.Archive.{digits, after_digits, part_at, find_part, group_key}

-- A text of decimal digits.
abbrev pub IsDigits : Text → Type 0
IsDigits = All (λ c. is_digit c ≡ true)

digits-append : (d : Text) → IsDigits d → digits (d ++ codes ".rar") ≡ d
digits-append [] h = refl
digits-append (c ∷ d) (p, h) = ground (arith, digits-append d h)

after_digits-append : (d : Text) → IsDigits d → after_digits (d ++ codes ".rar") ≡ codes ".rar"
after_digits-append [] h = refl
after_digits-append (c ∷ d) (p, h) = ground (arith, after_digits-append d h)

length-append_ge : (s t : Text) → length t ≤ length (s ++ t)
length-append_ge [] t = omega arith
length-append_ge (y ∷ s) t = omega (arith, length-append_ge s t)

-- What follows the digits holds at least everything from a byte on that is none.
length-after_digits :
    (s : Text) (c : ℕ) (t : Text)
    → is_digit c ≡ false
    → suc (length t) ≤ length (after_digits (s ++ c ∷ t))
length-after_digits [] c t h = ground arith
length-after_digits (x ∷ s) c t h =
    ground (arith, length-after_digits s c t h, length-append_ge s (c ∷ t))

length-to_lower : (s : Text) → length (to_lower s) ≡ length s
length-to_lower [] = refl
length-to_lower (c ∷ s) = omega (arith, length-to_lower s)

-- Behind a byte that stands before ".part", the digits of a match do not reach the end.
length-drop_part :
    (x : ℕ) (s t : Text)
    → suc (length t) ≤ length (after_digits (drop 5 (x ∷ (s ++ (codes ".part" ++ t)))))
length-drop_part x [] t = length-after_digits [] b't' t (ground arith)
length-drop_part x (a ∷ []) t = length-after_digits (b'r' ∷ []) b't' t (ground arith)
length-drop_part x (a ∷ b ∷ []) t = length-after_digits (b'a' ∷ b'r' ∷ []) b't' t (ground arith)
length-drop_part x (a ∷ b ∷ c ∷ []) t =
    length-after_digits (b'p' ∷ b'a' ∷ b'r' ∷ []) b't' t (ground arith)
length-drop_part x (a ∷ b ∷ c ∷ d ∷ s) t = ground (
  arith,
  length-after_digits s b'.' (codes "part" ++ t) (ground arith),
  length-append_ge (codes "part") t,
)

-- The name of a volume.
abbrev pub volume : (prefix number : Text) → Text
volume prefix number = prefix ++ (codes ".part" ++ (number ++ codes ".rar"))

part_at-volume :
    (c : ℕ) (number : Text)
    → IsDigits (c ∷ number)
    → part_at (codes ".part" ++ ((c ∷ number) ++ codes ".rar")) ≡ some (c ∷ number)
part_at-volume c number h =
    ground (arith, digits-append (c ∷ number) h, after_digits-append (c ∷ number) h)

not_suffix : (s : Text) → suc 4 ≤ length s → (to_lower s =t codes ".rar") ≡ false
not_suffix s h = ground (
  arith,
  length-to_lower s,
  =t_iff (to_lower s) (codes ".rar"),
  Bool-cases (to_lower s =t codes ".rar"),
)

length-rar : (s : Text) → length (s ++ codes ".rar") ≡ length s + 4
length-rar [] = refl
length-rar (c ∷ s) = omega (arith, length-rar s)

part_at_early :
    (x : ℕ) (s : Text) (c : ℕ) (number : Text) → part_at (x ∷ volume s (c ∷ number)) ≡ none
part_at_early x s c number =
    let t = (c ∷ number) ++ codes ".rar" in
    ground (
      arith,
      not_suffix (after_digits (drop 5 (x ∷ (s ++ (codes ".part" ++ t))))),
      length-drop_part x s t,
      length-rar (c ∷ number),
    )

find_part-volume :
    (prefix : Text) (c : ℕ) (number : Text)
    → IsDigits (c ∷ number)
    → find_part (volume prefix (c ∷ number)) ≡ some (prefix, c ∷ number)
unfolding find_part
find_part-volume [] c number h = ground (arith, part_at-volume c number h)
find_part-volume (x ∷ prefix) c number h =
    ground (arith, part_at_early x prefix c number, find_part-volume prefix c number h)

-- Every volume `<prefix>.part<digits>.rar` belongs to the group `<prefix>`, whatever the prefix
-- contains, another such ending too.
pub group_key-volume :
    (prefix : Text) (c : ℕ) (number : Text)
    → IsDigits (c ∷ number)
    → group_key (volume prefix (c ∷ number)) ≡ prefix
unfolding group_key
group_key-volume prefix c number h = ground (arith, find_part-volume prefix c number h)
