-- ===== src/Sync/Listing/RoundTrip.antt =====
-- internal/sync/scanner.go: printing a line as `find -printf '%p\t%s\n'` does, and parsing it.
use mathlib.Core.List.{reverse-cons, reverse-append, reverse-reverse}
use grabarr.Common.{
  ℕ, zero, suc, ◌+◌, ◌*◌, ◌-◌, ◌/◌, ◌%◌, ◌<◌, ◌≡◌, refl, sym, ap, ◌∙◌, Bool, true, false, ◌==◌,
  Bool-cases, inl, inr, some, List, [], ◌∷◌, ◌++◌, reverse, All, pos, Text, is_digit, decimal,
  digits_from, base, arith,
}
use grabarr.Models.RemoteFile.{FileStatus, RemoteFile}
use grabarr.Sync.Listing.{
  is_space, trim_left, trim_space, cut, digits_value, parse_int, matches_any, size_of, or_zero,
  line_file, parse_parts, parse_line,
}

abbrev IsDigit : ℕ → Type 0
IsDigit c = is_digit c ≡ true

digit : (n : ℕ) → IsDigit (b'0' + n % 10)
digit n = ground arith

-- A further digit.
digits_value-cons :
    (m n : ℕ) (tail : Text)
    → 10 * m + n % 10 ≡ n
    → digits_value m ((b'0' + n % 10) ∷ tail) ≡ digits_value n tail
digits_value-cons m n tail e =
    let same : 10 * m + (b'0' + n % 10 - b'0') ≡ n = omega (arith, e) in rw (digit n, same) refl

digits_value-digits_from :
    (fuel n : ℕ) (tail : Text)
    → n < fuel
    → digits_value 0 (digits_from fuel n tail) ≡ digits_value n tail
digits_value-digits_from zero n tail h = ground (arith, h)
digits_value-digits_from (suc fuel) n tail h = elim (Bool-cases (n / 10 == 0)) [
  | inl e ↦ rw e (digits_value-cons 0 n tail (ground (arith, e)))
  | inr e ↦ rw e (
      digits_value-digits_from fuel (n / 10) ((b'0' + n % 10) ∷ tail) (ground (arith, h, e))
      ∙ digits_value-cons (n / 10) n tail (omega arith))
]

digits_from-IsDigit :
    (fuel n : ℕ) (tail : Text)
    → n < fuel
    → All IsDigit tail
    → (c : ℕ) × (s : Text) × (digits_from fuel n tail ≡ c ∷ s) × All IsDigit (c ∷ s)
digits_from-IsDigit zero n tail h k = ground (arith, h)
digits_from-IsDigit (suc fuel) n tail h k = elim (Bool-cases (n / 10 == 0)) [
  | inl e ↦ rw e ((b'0' + n % 10), tail, refl, (digit n, k))
  | inr e ↦ rw e (
      digits_from-IsDigit fuel (n / 10) ((b'0' + n % 10) ∷ tail) (ground (arith, h, e))
        (digit n, k))
]

-- The text of a number as digits.
decimal-cases :
    (n : ℕ)
    → (c : ℕ) × (s : Text) × (decimal (pos n) ≡ c ∷ s)
      × All IsDigit (c ∷ s)
      × (digits_value 0 (c ∷ s) ≡ some n)
decimal-cases n =
    let (c, s, e, all) = digits_from-IsDigit (suc n) n [] (omega arith) tt in
    (
      c,
      s,
      e,
      all,
      ap (digits_value 0) (sym e) ∙ digits_value-digits_from (suc n) n [] (omega arith),
    )

parse_int-digits :
    (c n : ℕ) (s : Text)
    → IsDigit c
    → digits_value 0 (c ∷ s) ≡ some n
    → n < 9223372036854775808
    → parse_int (c ∷ s) ≡ some (pos n)
unfolding parse_int
parse_int-digits c n s d e h =
    let minus : (c == b'-') ≡ false = ground (arith, d) in
    let plus : (c == b'+') ≡ false = ground (arith, d) in rw (minus, plus, e) (ground (arith, h))

abbrev IsVisible : ℕ → Type 0
IsVisible c = is_space c ≡ false

-- A text that starts and ends with no space is not changed by trimming.
trim_space-ends :
    (c d : ℕ) (s t : Text)
    → IsVisible c
    → IsVisible d
    → reverse (c ∷ s) ≡ d ∷ t
    → trim_space (c ∷ s) ≡ c ∷ s
trim_space-ends c d s t hc hd e =
    let front : trim_left (c ∷ s) ≡ c ∷ s = ground (arith, hc) in
    let back : trim_left (d ∷ t) ≡ d ∷ t = ground (arith, hd) in
    ap (λ (x : Text). reverse (trim_left (reverse x))) front
    ∙ ap (λ (x : Text). reverse (trim_left x)) e
    ∙ ap (λ (x : Text). reverse x) back
    ∙ ap (λ (x : Text). reverse x) (sym e)
    ∙ reverse-reverse (c ∷ s)

reverse-last :
    (c : ℕ) (s : Text)
    → All IsDigit (c ∷ s)
    → (d : ℕ) × (t : Text) × (reverse (c ∷ s) ≡ d ∷ t) × IsDigit d
reverse-last c [] (h, k) = (c, [], refl, h)
reverse-last c (x ∷ s) (h, k) =
    let (d, t, e, q) = reverse-last x s k in
    (d, t ++ c ∷ [], reverse-cons c (x ∷ s) ∙ ap (λ (u : Text). u ++ c ∷ []) e, q)

visible : (c : ℕ) → IsDigit c → IsVisible c
visible c h = ground (arith, h)

cut-append :
    (sep : ℕ) (s t : Text) → All (λ c. (c == sep) ≡ false) s → cut sep (s ++ sep ∷ t) ≡ some (s, t)
unfolding cut
cut-append sep [] t h = ground arith
cut-append sep (c ∷ s) t (h, k) = rw (h, cut-append sep s t k) refl

-- The size of a printed line, and the line as it stands after trimming.
size_of-decimal : (n : ℕ) → n < 9223372036854775808 → size_of (decimal (pos n)) ≡ pos n
size_of-decimal n h =
    let (c, s, e, digits, value) = decimal-cases n in
    let (d, t, last, q) = reverse-last c s digits in
    let trimmed = trim_space-ends c d s t (visible c digits.0) (visible d q) last in
    ap size_of e
    ∙ ap (λ (x : Text). or_zero (parse_int x)) trimmed
    ∙ ap or_zero (parse_int-digits c n s digits.0 value h)

trim_space-line :
    (p n : ℕ) (ps : Text)
    → IsVisible p
    → trim_space ((p ∷ ps) ++ 9 ∷ decimal (pos n)) ≡ (p ∷ ps) ++ 9 ∷ decimal (pos n)
trim_space-line p n ps h =
    let (c, s, e, digits, value) = decimal-cases n in
    let (d, t, last, q) = reverse-last c s digits in
    let end : reverse ((p ∷ ps) ++ 9 ∷ decimal (pos n)) ≡ d ∷ (t ++ 9 ∷ [] ++ reverse (p ∷ ps)) =
      reverse-append (p ∷ ps) (9 ∷ decimal (pos n))
      ∙ ap (λ (u : Text). u ++ reverse (p ∷ ps))
          (reverse-cons 9 (decimal (pos n))
            ∙ ap (λ (u : Text). reverse u ++ 9 ∷ []) e
            ∙ ap (λ (u : Text). u ++ 9 ∷ []) last) in
    trim_space-ends p d (ps ++ 9 ∷ decimal (pos n)) (t ++ 9 ∷ [] ++ reverse (p ∷ ps)) h
      (visible d q) end

-- A line with a path that has no tab and starts with no space, and a size that an int64 holds, is read
-- back as the path and the size; the file is on the seedbox and belongs to the watched path.
pub parse_line-printed :
    (p n : ℕ) (ps watched : Text) (excludes : List (Text → Bool))
    → IsVisible p
    → All (λ c. (c == 9) ≡ false) (p ∷ ps)
    → n < 9223372036854775808
    → matches_any (base (p ∷ ps)) excludes ≡ false
    → (f : RemoteFile) × (parse_line ((p ∷ ps) ++ 9 ∷ decimal (pos n)) watched excludes ≡ some f)
      × (f.remote_path ≡ p ∷ ps)
      × (f.name ≡ base (p ∷ ps))
      × (f.size ≡ pos n)
      × (f.status ≡ FileStatus.on_seedbox)
      × (f.watched_path ≡ watched)
unfolding parse_line
parse_line-printed p n ps watched excludes h tabs bound kept =
    let size = decimal (pos n) in
    let read : parse_line ((p ∷ ps) ++ 9 ∷ size) watched excludes
        ≡ parse_parts watched excludes (some (p ∷ ps, size)) =
      ap (λ (x : Text). parse_parts watched excludes (cut 9 x)) (trim_space-line p n ps h)
      ∙ ap (parse_parts watched excludes) (cut-append 9 (p ∷ ps) size tabs) in
    let listed : parse_parts watched excludes (some (p ∷ ps, size))
        ≡ some (line_file watched (p ∷ ps) size) =
      rw kept refl in
    (
      line_file watched (p ∷ ps) size,
      read ∙ listed,
      refl,
      refl,
      size_of-decimal n bound,
      refl,
      refl,
    )
