-- ===== src/Bruno/Variables.antt =====
-- internal/brunogen/generator.go: the variables of a URL and its parameters.
use mathlib.Core.List.{reverse-cons}
use grabarr.Common.{
  ℕ, ◌≡◌, refl, sym, ap, ◌∙◌, false, ◌==◌, none, some, List, [], ◌∷◌, ◌++◌, map, reverse,
  append-nil, append_assoc, any-All, All, Text, codes, arith,
}
use grabarr.Bruno.Patterns.{Piece, byte, group, outside, inside, var_pieces, replace_all}
use grabarr.Bruno.Routes.{extract_path_params}
use grabarr.Bruno.Endpoint.{placeholder, protect, restore, replace_params, param_name, bruno_url}
use grabarr.Bruno.Urls.{
  Segment, plain_text, parameter, path_of, names_of, shown, is_brace, HasNoBrace, IsSegment,
  inner_text-HasNoBrace, param_pieces-plain, param_pieces-path, pieces_of, replace_all-plain,
  shown-pieces, extract_path_params-path_of,
}

-- Variables: no piece of a path is one, since two braces never follow each other.
var_pieces-plain :
    (t s : Text) → HasNoBrace t → var_pieces outside (t ++ s) ≡ map byte t ++ var_pieces outside s
unfolding var_pieces
var_pieces-plain [] s h = refl
var_pieces-plain (c ∷ t) s (p, h) =
    let e : (c == b'{') ≡ false = ground (arith, p) in
    rw e (ap (◌∷◌ (byte c)) (var_pieces-plain t s h))

map-append : (s t : Text) → map byte (s ++ t) ≡ map byte s ++ map byte t
map-append [] t = refl
map-append (c ∷ s) t = ap (◌∷◌ (byte c)) (map-append s t)

var_pieces-parameter :
    (c : ℕ) (t s : Text)
    → HasNoBrace (c ∷ t)
    → var_pieces outside (b'{' ∷ (c ∷ (t ++ (b'}' ∷ s))))
      ≡ byte b'{' ∷ byte c ∷ (map byte t ++ byte b'}' ∷ var_pieces outside s)
unfolding var_pieces
var_pieces-parameter c t s (p, h) =
    let e : (c == b'{') ≡ false = ground (arith, p) in
    rw e (ap (λ x. byte b'{' ∷ byte c ∷ x) (var_pieces-plain t (b'}' ∷ s) h))

var_pieces-braced :
    (c : ℕ) (t s : Text)
    → HasNoBrace (c ∷ t)
    → var_pieces outside s ≡ map byte s
    → var_pieces outside (b'{' ∷ (c ∷ (t ++ (b'}' ∷ s))))
      ≡ map byte (b'{' ∷ (c ∷ (t ++ (b'}' ∷ s))))
var_pieces-braced c t s h e =
    var_pieces-parameter c t s h
    ∙ ap (λ x. byte b'{' ∷ byte c ∷ (map byte t ++ byte b'}' ∷ x)) e
    ∙ ap (λ x. byte b'{' ∷ byte c ∷ x) (sym (map-append t (b'}' ∷ s)))

var_pieces-path :
    (segs : List Segment)
    → All IsSegment segs
    → var_pieces outside (path_of segs) ≡ map byte (path_of segs)
unfolding var_pieces
var_pieces-path [] h = refl
var_pieces-path (plain_text t ∷ segs) (p, h) =
    var_pieces-plain t (path_of segs) p
    ∙ ap (λ x. map byte t ++ x) (var_pieces-path segs h)
    ∙ sym (map-append t (path_of segs))
var_pieces-path (parameter [] pattern ∷ segs) (p, h) = absurd (ground (arith, p))
var_pieces-path (parameter (c ∷ name) none ∷ segs) (p, h) =
    var_pieces-braced c name (path_of segs) p.0 (var_pieces-path segs h)
var_pieces-path (parameter (c ∷ name) (some pattern) ∷ segs) (p, h) =
    var_pieces-braced c (name ++ (b':' ∷ pattern)) (path_of segs)
      (inner_text-HasNoBrace (c ∷ name) (some pattern) p.0 p.2) (var_pieces-path segs h)

-- A variable, at the start of a text.
var_pieces-inside :
    (d : ℕ) (inner t s : Text)
    → HasNoBrace t
    → var_pieces (inside (d ∷ inner)) (t ++ (b'}' ∷ b'}' ∷ s))
      ≡ group (reverse (d ∷ inner) ++ t) ∷ var_pieces outside s
unfolding var_pieces
var_pieces-inside d inner [] s h = rw (append-nil (reverse (d ∷ inner))) refl
var_pieces-inside d inner (c ∷ t) s (p, h) =
    let e : (c == b'}') ≡ false = ground (arith, p) in
    rw e (
      var_pieces-inside c (d ∷ inner) t s h
      ∙ ap (λ x. group x ∷ var_pieces outside s)
          (ap (λ x. x ++ t) (reverse-cons c (d ∷ inner))
            ∙ append_assoc (reverse (d ∷ inner)) (c ∷ []) t))

abbrev pub variable : Text → Text
variable name = codes "{{" ++ name ++ codes "}}"

var_pieces-variable :
    (c : ℕ) (t s : Text)
    → HasNoBrace (c ∷ t)
    → var_pieces outside (b'{' ∷ b'{' ∷ c ∷ (t ++ (b'}' ∷ b'}' ∷ s)))
      ≡ group (c ∷ t) ∷ var_pieces outside s
unfolding var_pieces
var_pieces-variable c t s (p, h) =
    let e : (c == b'}') ≡ false = ground (arith, p) in rw e (var_pieces-inside c [] t s h)

protect-plain : (n : ℕ) (t : Text) → protect n (map byte t) ≡ (t, [])
unfolding protect
protect-plain n [] = refl
protect-plain n (c ∷ t) = rw (protect-plain n t) refl

replace_params-path :
    (t : Text) (segs : List Segment)
    → HasNoBrace t
    → All IsSegment segs
    → replace_params (t ++ path_of segs) ≡ t ++ shown segs
replace_params-path t segs p h =
    let f : Text → Text = λ inner. codes ":" ++ param_name inner in
    ap (replace_all f)
      (param_pieces-plain t (path_of segs) p ∙ ap (λ x. map byte t ++ x) (param_pieces-path segs h))
    ∙ replace_all-plain f t (pieces_of segs)
    ∙ ap (λ x. t ++ x) (shown-pieces segs h)

-- What is done with the pieces of a URL.
abbrev url_of : List Piece → Text
url_of pieces = let (url, vars) = protect 0 pieces in restore 0 vars (replace_params url)

url_of-variable :
    (name : Text) (segs : List Segment)
    → All IsSegment segs
    → url_of (group name ∷ map byte (codes "/api/v1" ++ path_of segs))
      ≡ variable name ++ (codes "/api/v1" ++ shown segs)
unfolding protect restore
url_of-variable name segs h =
    let rest : Text = codes "/api/v1" ++ path_of segs in
    ap
      (λ (x : Text × List Text).
        restore 0 (variable name ∷ x.1) (replace_params (placeholder 0 ++ x.0)))
      (protect-plain 1 rest)
    ∙ ap (restore 0 (variable name ∷ [])) (
        replace_params-path (placeholder 0 ++ codes "/api/v1") segs
          (any-All is_brace (placeholder 0 ++ codes "/api/v1") refl) h)

var_pieces-url :
    (c : ℕ) (name : Text) (segs : List Segment)
    → HasNoBrace (c ∷ name)
    → All IsSegment segs
    → var_pieces outside (variable (c ∷ name) ++ (codes "/api/v1" ++ path_of segs))
      ≡ group (c ∷ name) ∷ map byte (codes "/api/v1" ++ path_of segs)
var_pieces-url c name segs p h =
    let rest : Text = codes "/api/v1" ++ path_of segs in
    ap (λ x. var_pieces outside (b'{' ∷ b'{' ∷ c ∷ x)) (append_assoc name (codes "}}") rest)
    ∙ var_pieces-variable c name rest p
    ∙ ap (λ x. group (c ∷ name) ∷ x)
        (var_pieces-plain (codes "/api/v1") (path_of segs) (any-All is_brace (codes "/api/v1") refl)
          ∙ ap (λ x. map byte (codes "/api/v1") ++ x) (var_pieces-path segs h))

-- A URL below a variable keeps it, and has the parameters of a path of such pieces as `:name`; the
-- route's list of parameters has the same names.
pub bruno_url-path_of :
    (c : ℕ) (name : Text) (segs : List Segment)
    → HasNoBrace (c ∷ name)
    → All IsSegment segs
    → (bruno_url (variable (c ∷ name)) (path_of segs)
        ≡ variable (c ∷ name) ++ (codes "/api/v1" ++ shown segs))
      × (extract_path_params (path_of segs) ≡ names_of segs)
unfolding bruno_url
bruno_url-path_of c name segs p h = (
  ap url_of (var_pieces-url c name segs p h) ∙ url_of-variable (c ∷ name) segs h,
  extract_path_params-path_of segs h,
)
