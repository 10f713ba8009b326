-- ===== src/Bruno/Urls.antt =====
-- internal/brunogen: the parameters of a route's path, and its URL in the collection.
use mathlib.Core.List.{reverse-cons}
use grabarr.Common.{
  ℕ, ◌≡◌, refl, ap, ◌∙◌, Bool, true, false, ◌==◌, ◌||◌, Option, none, some, List, [], ◌∷◌, ◌++◌,
  map, reverse, append-nil, append_assoc, All, All-append, Text, codes, arith,
}
use grabarr.Bruno.Patterns.{
  Piece, byte, group, outside, inside, param_pieces, groups, replace_all, first_part,
}
use grabarr.Bruno.Routes.{extract_path_params}
use grabarr.Bruno.Endpoint.{param_name}
use grabarr.Bruno.Registration.{trim_around}

-- A piece of a path: text as it is, or `{name}` or `{name:pattern}`.
pub data Segment : Type 0 where
  plain_text : Text → Segment
  parameter : Text → Option Text → Segment

abbrev pub inner_text : Text → Option Text → Text
inner_text name none = name
inner_text name (some pattern) = name ++ (b':' ∷ pattern)

abbrev pub path_of : List Segment → Text
path_of [] = []
path_of (plain_text t ∷ segs) = t ++ path_of segs
path_of (parameter name pattern ∷ segs) = b'{' ∷ (inner_text name pattern ++ (b'}' ∷ path_of segs))

abbrev pub names_of : List Segment → List Text
names_of [] = []
names_of (plain_text t ∷ segs) = names_of segs
names_of (parameter name pattern ∷ segs) = name ∷ names_of segs

-- The path as Bruno writes it.
abbrev pub shown : List Segment → Text
shown [] = []
shown (plain_text t ∷ segs) = t ++ shown segs
shown (parameter name pattern ∷ segs) = b':' ∷ (name ++ shown segs)

abbrev pub is_brace : ℕ → Bool
is_brace c = c == b'{' || c == b'}'

abbrev pub HasNoBrace : Text → Type 0
HasNoBrace t = All (λ c. is_brace c ≡ false) t

abbrev IsPattern : Option Text → Type 0
IsPattern none = Unit
IsPattern (some pattern) = HasNoBrace pattern

-- A name is not empty, and has no colon.
abbrev pub IsSegment : Segment → Type 0
IsSegment (plain_text t) = HasNoBrace t
IsSegment (parameter [] pattern) = true ≡ false
IsSegment (parameter (c ∷ name) pattern) =
    HasNoBrace (c ∷ name) × All (λ d. (d == b':') ≡ false) (c ∷ name) × IsPattern pattern

pub inner_text-HasNoBrace :
    (name : Text) (pattern : Option Text)
    → HasNoBrace name
    → IsPattern pattern
    → HasNoBrace (inner_text name pattern)
inner_text-HasNoBrace name none h k = h
inner_text-HasNoBrace name (some pattern) h k =
    All-append (λ c. is_brace c ≡ false) name (b':' ∷ pattern) h (refl, k)

first_part-inner_text :
    (name : Text) (pattern : Option Text)
    → All (λ d. (d == b':') ≡ false) name
    → first_part b':' (inner_text name pattern) ≡ name
first_part-inner_text [] none h = refl
first_part-inner_text [] (some pattern) h = refl
first_part-inner_text (c ∷ name) none (p, h) = rw p (ap (◌∷◌ c) (first_part-inner_text name none h))
first_part-inner_text (c ∷ name) (some pattern) (p, h) =
    rw p (ap (◌∷◌ c) (first_part-inner_text name (some pattern) h))

pub param_pieces-plain :
    (t s : Text)
    → HasNoBrace t
    → param_pieces outside (t ++ s) ≡ map byte t ++ param_pieces outside s
unfolding param_pieces
param_pieces-plain [] s h = refl
param_pieces-plain (c ∷ t) s (p, h) =
    let e : (c == b'{') ≡ false = ground (arith, p) in
    rw e (ap (◌∷◌ (byte c)) (param_pieces-plain t s h))

-- Within a brace that holds a byte.
param_pieces-inside :
    (d : ℕ) (inner t s : Text)
    → HasNoBrace t
    → param_pieces (inside (d ∷ inner)) (t ++ (b'}' ∷ s))
      ≡ group (reverse (d ∷ inner) ++ t) ∷ param_pieces outside s
unfolding param_pieces
param_pieces-inside d inner [] s h = rw (append-nil (reverse (d ∷ inner))) refl
param_pieces-inside d inner (c ∷ t) s (p, h) =
    let e : (c == b'}') ≡ false = ground (arith, p) in
    rw e (
      param_pieces-inside c (d ∷ inner) t s h
      ∙ ap (λ x. group x ∷ param_pieces outside s)
          (ap (λ x. x ++ t) (reverse-cons c (d ∷ inner))
            ∙ append_assoc (reverse (d ∷ inner)) (c ∷ []) t))

param_pieces-group :
    (c : ℕ) (t s : Text)
    → HasNoBrace (c ∷ t)
    → param_pieces outside (b'{' ∷ (c ∷ (t ++ (b'}' ∷ s)))) ≡ group (c ∷ t) ∷ param_pieces outside s
unfolding param_pieces
param_pieces-group c t s (p, h) =
    let e : (c == b'}') ≡ false = ground (arith, p) in rw e (param_pieces-inside c [] t s h)

-- The pieces of a path.
abbrev pub pieces_of : List Segment → List Piece
pieces_of [] = []
pieces_of (plain_text t ∷ segs) = map byte t ++ pieces_of segs
pieces_of (parameter name pattern ∷ segs) = group (inner_text name pattern) ∷ pieces_of segs

pub param_pieces-path :
    (segs : List Segment)
    → All IsSegment segs
    → param_pieces outside (path_of segs) ≡ pieces_of segs
unfolding param_pieces
param_pieces-path [] h = refl
param_pieces-path (plain_text t ∷ segs) (p, h) =
    param_pieces-plain t (path_of segs) p ∙ ap (λ x. map byte t ++ x) (param_pieces-path segs h)
param_pieces-path (parameter [] pattern ∷ segs) (p, h) = absurd (ground (arith, p))
param_pieces-path (parameter (c ∷ name) none ∷ segs) (p, h) =
    param_pieces-group c name (path_of segs) p.0
    ∙ ap (λ x. group (c ∷ name) ∷ x) (param_pieces-path segs h)
param_pieces-path (parameter (c ∷ name) (some pattern) ∷ segs) (p, h) =
    param_pieces-group c (name ++ (b':' ∷ pattern)) (path_of segs)
      (inner_text-HasNoBrace (c ∷ name) (some pattern) p.0 p.2)
    ∙ ap (λ x. group (inner_text (c ∷ name) (some pattern)) ∷ x) (param_pieces-path segs h)

groups-plain : (t : Text) (ps : List Piece) → groups (map byte t ++ ps) ≡ groups ps
groups-plain [] ps = refl
groups-plain (c ∷ t) ps = groups-plain t ps

pub replace_all-plain :
    (f : Text → Text) (t : Text) (ps : List Piece)
    → replace_all f (map byte t ++ ps) ≡ t ++ replace_all f ps
replace_all-plain f [] ps = refl
replace_all-plain f (c ∷ t) ps = ap (◌∷◌ c) (replace_all-plain f t ps)

names_of-groups :
    (segs : List Segment)
    → All IsSegment segs
    → map (first_part b':') (groups (pieces_of segs)) ≡ names_of segs
names_of-groups [] h = refl
names_of-groups (plain_text t ∷ segs) (p, h) =
    ap (map (first_part b':')) (groups-plain t (pieces_of segs)) ∙ names_of-groups segs h
names_of-groups (parameter [] pattern ∷ segs) (p, h) = absurd (ground (arith, p))
names_of-groups (parameter (c ∷ name) pattern ∷ segs) (p, h) =
    rw (first_part-inner_text (c ∷ name) pattern p.1)
      (ap (λ x. (c ∷ name) ∷ x) (names_of-groups segs h))

param_name-inner_text :
    (name : Text) (pattern : Option Text)
    → HasNoBrace name
    → All (λ d. (d == b':') ≡ false) name
    → IsPattern pattern
    → param_name (inner_text name pattern) ≡ name
param_name-inner_text name pattern h n k =
    ap (first_part b':') (
      trim_around is_brace b'{' b'}' (inner_text name pattern) refl refl
        (inner_text-HasNoBrace name pattern h k))
    ∙ first_part-inner_text name pattern n

pub shown-pieces :
    (segs : List Segment)
    → All IsSegment segs
    → replace_all (λ inner. codes ":" ++ param_name inner) (pieces_of segs) ≡ shown segs
shown-pieces [] h = refl
shown-pieces (plain_text t ∷ segs) (p, h) =
    replace_all-plain (λ inner. codes ":" ++ param_name inner) t (pieces_of segs)
    ∙ ap (λ x. t ++ x) (shown-pieces segs h)
shown-pieces (parameter [] pattern ∷ segs) (p, h) = absurd (ground (arith, p))
shown-pieces (parameter (c ∷ name) pattern ∷ segs) (p, h) =
    ap (λ x. b':' ∷ (x ++ replace_all (λ inner. codes ":" ++ param_name inner) (pieces_of segs)))
      (param_name-inner_text (c ∷ name) pattern p.0 p.1 p.2)
    ∙ ap (λ x. b':' ∷ ((c ∷ name) ++ x)) (shown-pieces segs h)

-- A path made of such pieces gives the names of its parameters.
pub extract_path_params-path_of :
    (segs : List Segment) → All IsSegment segs → extract_path_params (path_of segs) ≡ names_of segs
unfolding extract_path_params
extract_path_params-path_of segs h =
    ap (λ x. map (first_part b':') (groups x)) (param_pieces-path segs h) ∙ names_of-groups segs h
