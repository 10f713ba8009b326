-- ===== src/Bruno/Overwritten.antt =====
-- internal/brunogen/generator.go: which of the two routes of a statement is left in its file.
use grabarr.Common.{
  ℕ, suc, ◌≡◌, refl, Bool, true, false, Bool-cases, ◌⊎◌, inl, inr, none, some, List, [], ◌∷◌, ◌++◌,
  select, any, All, Text, codes, ◌=t◌, =t_iff, join, ok, for_each, arith,
}
use grabarr.Bruno.Structs.{Structs}
use grabarr.Bruno.Routes.{Route, infer_method_from_handler, map_routes_to_structs}
use grabarr.Bruno.Endpoint.{route_content, route_to_name}
use grabarr.Bruno.Generator.{
  Disk, Platform, Generator, file_at, route_file, category_dir, folder_file, folder_bru,
  generate_routes, generate_category,
}
use grabarr.Bruno.Registration.{Registration, both_routes}

-- Routes in pairs of one path and handler, the second with the inferred method.
abbrev pub Paired : List Route → Type 0
Paired [] = Unit
Paired (a ∷ []) = ⊥
Paired (a ∷ b ∷ rs) =
    (a.handler ≡ b.handler)
    × (a.path ≡ b.path)
    × (a.category ≡ b.category)
    × (b.method ≡ infer_method_from_handler b.handler)
    × Paired rs

pub both_routes-Paired : (regs : List Registration) → Paired (both_routes regs)
both_routes-Paired [] = tt
both_routes-Paired (r ∷ regs) = (refl, refl, refl, refl, both_routes-Paired regs)

pub map_routes_to_structs-Paired :
    (structs : Structs) (rs : List Route) → Paired rs → Paired (map_routes_to_structs structs rs)
unfolding map_routes_to_structs
map_routes_to_structs-Paired structs [] h = tt
map_routes_to_structs-Paired structs (a ∷ []) h = h
map_routes_to_structs-Paired structs (a ∷ b ∷ rs) (h, p, c, m, t) =
    (h, p, c, m, map_routes_to_structs-Paired structs rs t)

select-Paired : (t : Text) (rs : List Route) → Paired rs → Paired (select (λ r. r.category =t t) rs)
select-Paired t [] h = tt
select-Paired t (a ∷ []) h = absurd h
select-Paired t (a ∷ b ∷ rs) (h, p, c, m, k) = elim (Bool-cases (b.category =t t)) [
  | inl y ↦
      let x : (a.category =t t) ≡ true = rw c y in rw (x, y) (h, p, c, m, select-Paired t rs k)
  | inr n ↦ let x : (a.category =t t) ≡ false = rw c n in rw (x, n) (select-Paired t rs k)
]

-- What a file of a path is after the generation: that of a route with the inferred method.
abbrev pub IsInferred : (g : Generator) → (dir path content : Text) → Type 0
IsInferred g dir path content =
    (r : Route) × (seq : ℕ) × (join dir (route_to_name r ++ codes ".bru") ≡ path)
    × (r.method ≡ infer_method_from_handler r.handler)
    × (content ≡ route_content g.base_url r seq)

abbrev pub Holds : Generator → Text → Disk → Type 0
Holds g path d =
    (content : Text) × (file_at path d.files ≡ some content)
    × (dir : Text) × IsInferred g dir path content

abbrev pub IsQuiet : Platform → Type 0
IsQuiet p = (n : ℕ) → p.fault n ≡ none

module _ (p : Platform) (g : Generator) where
  abbrev pub names_path : (dir path : Text) → Route → Bool
  names_path dir path r = route_file p g dir r =t path

  -- Whether the file is one of a category's.
  abbrev pub is_target : Text → List Route → Text → Bool
  is_target path routes c =
      any (names_path (category_dir p g c) path) (select (λ r. r.category =t c) routes)

module _ (p : Platform) (g : Generator) (quiet : IsQuiet p) where
  module _ (dir path : Text) where
    same_file :
        (a b : Route)
        → a.handler ≡ b.handler
        → a.path ≡ b.path
        → route_file p g dir a ≡ route_file p g dir b
    unfolding route_to_name
    same_file a b h e = cc (h, e)

    -- After the pair, the file of its name is the second's.
    pair-Holds :
        (a b : Route) (rs : List Route) (first second : Text) (seq : ℕ) (d e : Disk)
        → route_file p g dir a ≡ route_file p g dir b
        → b.method ≡ infer_method_from_handler b.handler
        → second ≡ route_content g.base_url b seq
        → e.files ≡ (route_file p g dir b, second) ∷ (route_file p g dir a, first) ∷ d.files
        → (any (names_path p g dir path) (a ∷ b ∷ rs) ≡ true) ⊎ Holds g path d
        → (any (names_path p g dir path) rs ≡ true) ⊎ Holds g path e
    pair-Holds a b rs first second seq d e same m c w k =
        elim (Bool-cases (route_file p g dir b =t path)) [
          | inl y ↦ inr (
            second,
            (rw (w, y) refl),
            dir,
            (b, seq, (=t_iff (route_file p g dir b) path).0 y, m, c),
          )
          | inr n ↦ elim k [
            | inl x ↦ inl (ground (arith, x, n, same))
            | inr (content, at, where_dir, rest) ↦
                inr (content, (rw (w, n, same, n) at), where_dir, rest)
          ]
        ]

    generate_routes-Holds :
        (rs : List Route) (seq : ℕ) (d : Disk)
        → Paired rs
        → (any (names_path p g dir path) rs ≡ true) ⊎ Holds g path d
        → Holds g path (generate_routes p g dir seq rs d).1
    unfolding generate_routes
    generate_routes-Holds [] seq d h (inl e) = absurd (ground (arith, e))
    generate_routes-Holds [] seq d h (inr k) = k
    generate_routes-Holds (a ∷ []) seq d h k = absurd h
    generate_routes-Holds (a ∷ b ∷ rs) seq d (h, e, c, m, t) k =
        rw (quiet d.calls, quiet (suc d.calls))
          (let files : List (Text × Text) =
              (route_file p g dir b, route_content g.base_url b (suc seq))
              ∷ (route_file p g dir a, route_content g.base_url a seq)
              ∷ d.files in
            let d' : Disk = record { files = files; calls = suc (suc d.calls) } in
            generate_routes-Holds rs (suc (suc seq)) d' t
              (pair-Holds a b rs _ _ (suc seq) d d' (same_file a b h e) m refl refl k))

  -- No call fails.
  generate_routes_ok :
      (dir : Text) (seq : ℕ) (rs : List Route) (d : Disk)
      → (generate_routes p g dir seq rs d).0 ≡ ok tt
  unfolding generate_routes
  generate_routes_ok dir seq [] d = refl
  generate_routes_ok dir seq (r ∷ rs) d =
      let files : List (Text × Text) =
        (route_file p g dir r, route_content g.base_url r seq) ∷ d.files in
      rw (quiet d.calls)
        (generate_routes_ok dir (suc seq) rs (record { files = files; calls = suc d.calls }))

  module _ (path : Text) (routes : List Route) where
    abbrev after_folder : Text → Disk → Disk
    after_folder c d = record {
      files = (folder_file p g c, folder_bru c) ∷ d.files;
      calls = suc (suc d.calls);
    }

    generate_category-routes :
        (c : Text) (d : Disk)
        → generate_category p g routes c d
          ≡ generate_routes p g
              (category_dir p g c)
              1
              (select (λ r. r.category =t c) routes)
              (after_folder c d)
    unfolding generate_category
    generate_category-routes c d = rw (quiet d.calls, quiet (suc d.calls)) refl

    generate_category-Holds :
        (c : Text) (d : Disk)
        → Paired routes
        → (folder_file p g c =t path) ≡ false
        → (is_target p g path routes c ≡ true) ⊎ Holds g path d
        → Holds g path (generate_category p g routes c d).1
    generate_category-Holds c d paired n k = rw (generate_category-routes c d) (
        generate_routes-Holds (category_dir p g c) path (select (λ r. r.category =t c) routes) 1
          (after_folder c d) (select-Paired c routes paired)
          (elim k [
            | inl e ↦ inl e
            | inr (content, at, in_dir, rest) ↦ inr (content, (rw n at), in_dir, rest)
          ]))

    generate_category_ok : (c : Text) (d : Disk) → (generate_category p g routes c d).0 ≡ ok tt
    generate_category_ok c d = rw (generate_category-routes c d) (
        generate_routes_ok (category_dir p g c) 1 (select (λ r. r.category =t c) routes)
          (after_folder c d))

    pub generate_categories-Holds :
        (cs : List Text) (d : Disk)
        → Paired routes
        → All (λ c. (folder_file p g c =t path) ≡ false) cs
        → (any (is_target p g path routes) cs ≡ true) ⊎ Holds g path d
        → ((for_each (generate_category p g routes) cs d).0 ≡ ok tt)
          × Holds g path (for_each (generate_category p g routes) cs d).1
    generate_categories-Holds [] d paired h (inl e) = absurd (ground (arith, e))
    generate_categories-Holds [] d paired h (inr k) = (refl, k)
    generate_categories-Holds (c ∷ cs) d paired (n, h) k =
        let d' : Disk = (generate_category p g routes c d).1 in
        let made : (any (is_target p g path routes) cs ≡ true) ⊎ Holds g path d' =
          elim (Bool-cases (is_target p g path routes c)) [
            | inl y ↦ inr (generate_category-Holds c d paired n (inl y))
            | inr y ↦ elim k [
              | inl e ↦ inl (rw y at e)
              | inr held ↦ inr (generate_category-Holds c d paired n (inr held))
            ]
          ] in
        rw (generate_category_ok c d) (generate_categories-Holds cs d' paired h made)
