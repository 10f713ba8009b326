-- ===== src/Bruno/Categories.antt =====
-- internal/brunogen/generator.go: the categories of routes, and what a category's routes are.
use grabarr.Common.{
  ◌≡◌, refl, sym, ap, Bool, true, ◌||◌, ◌&&◌, Bool-cases, inl, inr, List, [], ◌∷◌, ◌++◌, select,
  any, if◌then◌else◌, Text, ◌=t◌, =t_iff, =t_refl, arith,
}
use grabarr.Bruno.Structs.{Structs}
use grabarr.Bruno.Routes.{Route, map_routes_to_structs}
use grabarr.Bruno.Endpoint.{route_to_name}
use grabarr.Bruno.Generator.{Platform, Generator, categories}
use grabarr.Bruno.Registration.{Registration, both_routes, inferred}
use grabarr.Bruno.Overwritten.{names_path}

pub any-=t :
    (q : Text → Bool) (c : Text) (cs : List Text)
    → any (λ x. c =t x) cs ≡ true
    → q c ≡ true
    → any q cs ≡ true
any-=t q c [] h e = absurd (ground (arith, h))
any-=t q c (x ∷ xs) h e = elim (Bool-cases (c =t x)) [
  | inl y ↦ let same : q x ≡ true = rw (sym ((=t_iff c x).0 y)) e in ground (arith, same)
  | inr n ↦ let later : any q xs ≡ true = any-=t q c xs (rw n at h) e in ground (arith, later)
]

any-snoc : (q : Text → Bool) (cs : List Text) (c : Text) → any q (cs ++ c ∷ []) ≡ (any q cs || q c)
any-snoc q [] c = ground arith
any-snoc q (x ∷ cs) c = ground (arith, any-snoc q cs c)

any-added :
    (u : Text) (seen : List Text)
    → any (λ c. u =t c) (if any (λ c. u =t c) seen then seen else seen ++ u ∷ []) ≡ true
any-added u seen = ground (arith, any-snoc (λ c. u =t c) seen u, =t_refl u)

-- The categories of a list of routes hold those that were seen and those of the routes.
categories-seen :
    (t : Text) (seen : List Text) (rs : List Route)
    → any (λ x. t =t x) seen ≡ true
    → any (λ x. t =t x) (categories seen rs) ≡ true
categories-seen t seen [] h = h
categories-seen t seen (r ∷ rs) h =
    categories-seen t (if any (λ c. r.category =t c) seen then seen else seen ++ r.category ∷ []) rs
      (ground (arith, h, any-snoc (λ x. t =t x) seen r.category))

module _ (q : Route → Bool) (t : Text) where
  abbrev pub is_of : Route → Bool
  is_of r = r.category =t t && q r

  pub categories-any :
      (seen : List Text) (rs : List Route)
      → any is_of rs ≡ true
      → any (λ x. t =t x) (categories seen rs) ≡ true
  categories-any seen [] h = absurd (ground (arith, h))
  categories-any seen (r ∷ rs) h =
      let next : List Text =
        if any (λ c. r.category =t c) seen then seen else seen ++ r.category ∷ [] in
      elim (Bool-cases (is_of r)) [
        | inl y ↦
            let e : r.category ≡ t = (=t_iff r.category t).0 (ground (arith, y)) in
            categories-seen t next rs (rw (sym e) (any-added r.category seen))
        | inr n ↦ categories-any next rs (rw n at h)
      ]

  pub select-any :
      (rs : List Route) → any is_of rs ≡ true → any q (select (λ r. r.category =t t) rs) ≡ true
  select-any [] h = h
  select-any (r ∷ rs) h = ground (arith, h, select-any rs)

  pub both_routes-any :
      (before after : List Registration) (r : Registration)
      → is_of (inferred r) ≡ true
      → any is_of (both_routes (before ++ r ∷ after)) ≡ true
  both_routes-any [] after r h = ground (arith, h)
  both_routes-any (b ∷ before) after r h = ground (arith, both_routes-any before after r h)

pub map_routes_to_structs-categories :
    (structs : Structs) (seen : List Text) (rs : List Route)
    → categories seen (map_routes_to_structs structs rs) ≡ categories seen rs
unfolding map_routes_to_structs
map_routes_to_structs-categories structs seen [] = refl
map_routes_to_structs-categories structs seen (r ∷ rs) =
    map_routes_to_structs-categories structs
      (if any (λ c. r.category =t c) seen then seen else seen ++ r.category ∷ []) rs

pub map_routes_to_structs-any :
    (p : Platform) (g : Generator) (dir path t : Text) (structs : Structs) (rs : List Route)
    → any (λ r. r.category =t t && names_path p g dir path r) (map_routes_to_structs structs rs)
      ≡ any (λ r. r.category =t t && names_path p g dir path r) rs
unfolding map_routes_to_structs route_to_name
map_routes_to_structs-any p g dir path t structs [] = refl
map_routes_to_structs-any p g dir path t structs (r ∷ rs) =
    ap (λ b. (r.category =t t && names_path p g dir path r) || b)
      (map_routes_to_structs-any p g dir path t structs rs)
