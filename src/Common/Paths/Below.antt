-- ===== src/Common/Paths/Below.antt =====
-- `filepath.Join` of a base and a relative path that does not lead out of it.
use mathlib.Core.List.{reverse-cons, reverse-append}
use grabarr.Common.{
  Bool-cases, ℕ, ◌≡◌, refl, sym, ap, ◌∙◌, ◌⊎◌, inl, inr, Bool, true, false, ◌==◌, List, [], ◌∷◌,
  ◌++◌, reverse, append_assoc, if◌then◌else◌, All, All-append, Text, codes, ◌=t◌, =t_iff,
  has_prefix, split, add_first, join_by, is_abs, clean, join, clean_element, clean_elements, arith,
}

-- The elements that `Clean` keeps of a path.
abbrev pub elements : Text → List Text
elements path = clean_elements (is_abs path) [] (split b'/' path)

abbrev pub IsDown : Text → Type 0
IsDown part = (part =t codes "..") ≡ false

-- The stack of `clean_elements` at its end.
abbrev stack_of : Bool → List Text → List Text → List Text
stack_of rooted stack [] = stack
stack_of rooted stack (part ∷ parts) = stack_of rooted (clean_element rooted stack part) parts

clean_elements-reverse :
    (rooted : Bool) (stack parts : List Text)
    → clean_elements rooted stack parts ≡ reverse (stack_of rooted stack parts)
clean_elements-reverse rooted stack [] = refl
clean_elements-reverse rooted stack (part ∷ parts) =
    clean_elements-reverse rooted (clean_element rooted stack part) parts

stack_of-append :
    (rooted : Bool) (stack xs ys : List Text)
    → stack_of rooted stack (xs ++ ys) ≡ stack_of rooted (stack_of rooted stack xs) ys
stack_of-append rooted stack [] ys = refl
stack_of-append rooted stack (x ∷ xs) ys =
    stack_of-append rooted (clean_element rooted stack x) xs ys

split-cons : (sep : ℕ) (s : Text) → (p : Text) × (ps : List Text) × (split sep s ≡ p ∷ ps)
split-cons sep [] = ([], [], refl)
split-cons sep (c ∷ s) =
    let (p, ps, e) = split-cons sep s in
    elim (c == sep)
      as (λ b.
        (q : Text) × (qs : List Text) × ((if b then [] ∷ split sep s else add_first c (split sep s))
          ≡ q ∷ qs)) [ true ↦ ([], split sep s, refl) | false ↦ (c ∷ p, ps, ap (add_first c) e) ]

split-append : (sep : ℕ) (s t : Text) → split sep (s ++ sep ∷ t) ≡ split sep s ++ split sep t
split-append sep [] t = ground arith
split-append sep (c ∷ s) t =
    let (p, ps, e) = split-cons sep s in ground (arith, split-append sep s t, e)

-- Whether the element at the bottom is `..`.
abbrev is_out : List Text → Bool
is_out [] = false
is_out (t ∷ []) = t =t codes ".."
is_out (t ∷ u ∷ ts) = is_out (u ∷ ts)

clean_element-is_out :
    (stack : List Text) (part : Text)
    → is_out stack ≡ true
    → is_out (clean_element false stack part) ≡ true
clean_element-is_out [] part h = ground arith
clean_element-is_out (t ∷ []) part h = ground (arith, =t_iff t (codes ".."))
clean_element-is_out (t ∷ u ∷ ts) part h = ground arith

stack_of-is_out :
    (stack parts : List Text) → is_out stack ≡ true → is_out (stack_of false stack parts) ≡ true
stack_of-is_out stack [] h = h
stack_of-is_out stack (part ∷ parts) h =
    stack_of-is_out (clean_element false stack part) parts (clean_element-is_out stack part h)

-- A step on a stack without `..` leads out, or it is the step on a stack that has others below.
clean_element-cases :
    (stack below : List Text) (part : Text)
    → All IsDown stack
    → (is_out (clean_element false stack part) ≡ true)
      ⊎ (All IsDown (clean_element false stack part)
          × (clean_element true (stack ++ below) part ≡ clean_element false stack part ++ below))
clean_element-cases [] [] part h = ground arith
clean_element-cases [] (b ∷ below) part h = ground arith
clean_element-cases (t ∷ ts) below part h = ground arith

stack_of-below :
    (stack below parts : List Text)
    → All IsDown stack
    → is_out (stack_of false stack parts) ≡ false
    → All IsDown (stack_of false stack parts)
      × (stack_of true (stack ++ below) parts ≡ stack_of false stack parts ++ below)
stack_of-below stack below [] h e = (h, refl)
stack_of-below stack below (part ∷ parts) h e = elim (clean_element-cases stack below part h) [
  | inl out ↦ ground (stack_of-is_out (clean_element false stack part) parts out, e, arith)
  | inr (down, same) ↦ rw same (stack_of-below (clean_element false stack part) below parts down e)
]

is_out-reverse :
    (stack : List Text)
    → is_out stack ≡ true
    → (rest : List Text) × (reverse stack ≡ codes ".." ∷ rest)
is_out-reverse [] h = ground arith
is_out-reverse (t ∷ []) h = ([], ap (λ (x : Text). x ∷ []) ((=t_iff t (codes "..")).0 h))
is_out-reverse (t ∷ u ∷ ts) h =
    let (rest, e) = is_out-reverse (u ∷ ts) h in
    (rest ++ t ∷ [], reverse-cons t (u ∷ ts) ∙ ap (λ (xs : List Text). xs ++ t ∷ []) e)

All-reverse : (stack : List Text) → All IsDown stack → All IsDown (reverse stack)
All-reverse [] h = tt
All-reverse (t ∷ ts) (p, h) =
    rw (reverse-cons t ts) (All-append IsDown (reverse ts) (t ∷ []) (All-reverse ts h) (p, tt))

-- The joined elements start with the first one.
has_prefix-join_by :
    (rest : List Text) → has_prefix (join_by (codes "/") (codes ".." ∷ rest)) (codes "..") ≡ true
has_prefix-join_by [] = refl
has_prefix-join_by (t ∷ ts) = refl

has_prefix-clean :
    (rel : Text)
    → is_abs rel ≡ false
    → is_out (stack_of false [] (split b'/' rel)) ≡ true
    → has_prefix (clean rel) (codes "..") ≡ true
has_prefix-clean rel relative out =
    let (rest, e) = is_out-reverse (stack_of false [] (split b'/' rel)) out in
    let kept : clean_elements false [] (split b'/' rel) ≡ codes ".." ∷ rest =
      clean_elements-reverse false [] (split b'/' rel) ∙ e in
    cleaned (is_abs rel) (split b'/' rel) relative kept
  where
    cleaned :
        (abs : Bool) (parts : List Text) {rest : List Text}
        → abs ≡ false
        → clean_elements false [] parts ≡ codes ".." ∷ rest
        → has_prefix
            (let text = join_by (codes "/") (clean_elements abs [] parts) in
              if abs then codes "/" ++ text else if text =t [] then codes "." else text)
            (codes "..")
          ≡ true
    cleaned true parts e kept = ground (e, arith)
    cleaned false parts {rest} e kept =
        rw kept
          (elim rest
            as (λ ts.
              has_prefix
                (let text = join_by (codes "/") (codes ".." ∷ ts) in
                  if text =t [] then codes "." else text)
                (codes "..")
              ≡ true) [ [] ↦ refl | t ∷ ts ↦ refl ])

clean_elements-append :
    (base rel : Text)
    → is_out (stack_of false [] (split b'/' rel)) ≡ false
    → clean_elements true [] (split b'/' (base ++ b'/' ∷ rel))
      ≡ clean_elements true [] (split b'/' base) ++ clean_elements false [] (split b'/' rel)
clean_elements-append base rel inside =
    let below = stack_of true [] (split b'/' base) in
    let own = stack_of false [] (split b'/' rel) in
    clean_elements-reverse true [] (split b'/' (base ++ b'/' ∷ rel))
    ∙ ap (λ (ts : List Text). reverse (stack_of true [] ts)) (split-append b'/' base rel)
    ∙ ap (λ (ts : List Text). reverse ts)
        (stack_of-append true [] (split b'/' base) (split b'/' rel))
    ∙ ap (λ (ts : List Text). reverse ts) (stack_of-below [] below (split b'/' rel) tt inside).1
    ∙ reverse-append own below
    ∙ sym (
        ap (λ (ts : List Text). ts ++ reverse own)
          (clean_elements-reverse true [] (split b'/' base)))
    ∙ sym (
        ap (λ (ts : List Text). clean_elements true [] (split b'/' base) ++ ts)
          (clean_elements-reverse false [] (split b'/' rel)))

elements_of :
    (path : Text) {abs : Bool}
    → is_abs path ≡ abs
    → elements path ≡ clean_elements abs [] (split b'/' path)
elements_of path e = ap (λ (b : Bool). clean_elements b [] (split b'/' path)) e

clean_abs :
    (path : Text)
    → is_abs path ≡ true
    → clean path ≡ codes "/" ++ join_by (codes "/") (clean_elements true [] (split b'/' path))
clean_abs path h =
    ap
      (λ (b : Bool).
        let kept = join_by (codes "/") (clean_elements b [] (split b'/' path)) in
        if b then codes "/" ++ kept else if kept =t [] then codes "." else kept)
      h

-- Below an absolute base, a relative path whose clean form does not start with `..` has the base's
-- elements, and then its own, none of which is `..`.
pub join-elements :
    (base rel : Text)
    → is_abs base ≡ true
    → is_abs rel ≡ false
    → has_prefix (clean rel) (codes "..") ≡ false
    → All IsDown (elements rel)
      × (join base rel ≡ codes "/" ++ join_by (codes "/") (elements base ++ elements rel))
join-elements [] rel a r h = ground (a, arith)
join-elements (c ∷ s) rel a r h =
    let inside : is_out (stack_of false [] (split b'/' rel)) ≡ false =
      elim (Bool-cases (is_out (stack_of false [] (split b'/' rel)))) [
        | inl out ↦ ground (has_prefix-clean rel r out, h, arith)
        | inr e ↦ e
      ] in
    let down : All IsDown (stack_of false [] (split b'/' rel)) =
      (stack_of-below [] [] (split b'/' rel) tt inside).0 in
    let joined : join (c ∷ s) rel
        ≡ codes "/" ++ join_by (codes "/") (elements (c ∷ s) ++ elements rel) =
      ap clean (append_assoc (c ∷ s) (codes "/") rel)
      ∙ clean_abs ((c ∷ s) ++ b'/' ∷ rel) a
      ∙ ap (λ (ts : List Text). codes "/" ++ join_by (codes "/") ts)
          (clean_elements-append (c ∷ s) rel inside
            ∙ sym (
                ap (λ (ts : List Text). ts ++ clean_elements false [] (split b'/' rel))
                  (elements_of (c ∷ s) a))
            ∙ sym (ap (λ (ts : List Text). elements (c ∷ s) ++ ts) (elements_of rel r))) in
    (
      rw (elements_of rel r, clean_elements-reverse false [] (split b'/' rel))
          (All-reverse (stack_of false [] (split b'/' rel)) down),
      joined,
    )
