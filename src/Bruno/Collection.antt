-- ===== src/Bruno/Collection.antt =====
-- internal/brunogen/generator.go: Generate, on the statements of RegisterRoutes.
use grabarr.Common.{
  suc, ◌≡◌, refl, ap, ◌∙◌, Bool, true, false, ◌&&◌, inl, List, [], ◌∷◌, ◌++◌, any, All, Text, codes,
  ◌=t◌, =t_refl, join, ok, Action, or_wrap, ◌>>◌,
}
use grabarr.Bruno.Ast.{Node, Nodes}
use grabarr.Bruno.Structs.{Structs, api_files, parse_files}
use grabarr.Bruno.Routes.{Route, extract_category, register_bodies_all, map_routes_to_structs}
use grabarr.Bruno.Generator.{
  Disk, Platform, Generator, route_file, category_dir, folder_file, categories, bruno_json,
  collection_bru, generate_collection_files, generate_endpoints, generate,
}
use grabarr.Bruno.Registration.{
  Registration, Line, registrations, IsWritten, handlers_file, both_routes, inferred,
  parse_routes-both,
}
use grabarr.Bruno.Categories.{
  any-=t, is_of, categories-any, select-any, both_routes-any, map_routes_to_structs-categories,
  map_routes_to_structs-any,
}
use grabarr.Bruno.Overwritten.{
  both_routes-Paired, map_routes_to_structs-Paired, Holds, IsQuiet, names_path, is_target,
  generate_categories-Holds,
}

-- The calls of a chain that succeed.
module _ {S : Type 0} (m : Action S Unit) where
  or_wrap-ok : (text : Text) (s : S) → (m s).0 ≡ ok tt → or_wrap m text s ≡ (ok tt, (m s).1)
  or_wrap-ok text s e = rw (or_wrap, e) refl

  then-ok : (k : Action S Unit) (s t : S) → m s ≡ (ok tt, t) → (m >> k) s ≡ k t
  then-ok k s t e = rw e refl

-- A permutation of a list keeps its elements.
abbrev pub KeepsElements : Platform → Type 0
KeepsElements p =
    (t : Text) (xs : List Text)
    → any (λ x. t =t x) xs ≡ true
    → any (λ x. t =t x) (p.range xs) ≡ true

module _ (p : Platform) (g : Generator) where
  -- The file of a statement's handler.
  abbrev pub statement_file : Registration → Text
  statement_file r = route_file p g (category_dir p g (extract_category r.path)) (inferred r)

  abbrev after_collection : Disk → Disk
  after_collection d = record {
    files =
        (join g.output_dir (codes "collection.bru"), collection_bru)
        ∷ (join g.output_dir (codes "bruno.json"), bruno_json)
        ∷ d.files;
    calls = suc (suc d.calls);
  }

  collection_files_ok :
      (d : Disk) → IsQuiet p → generate_collection_files p g d ≡ (ok tt, after_collection d)
  unfolding generate_collection_files
  collection_files_ok d quiet = rw (quiet d.calls, quiet (suc d.calls)) refl

  generate_endpoints-Holds :
      (before after : List Registration) (r : Registration) (structs : Structs) (d : Disk)
      → IsQuiet p
      → KeepsElements p
      → All
          (λ c. (folder_file p g c =t statement_file r) ≡ false)
          (p.range (categories [] (both_routes (before ++ r ∷ after))))
      → let mapped : List Route =
          map_routes_to_structs structs (both_routes (before ++ r ∷ after)) in
        ((generate_endpoints p g mapped d).0 ≡ ok tt)
        × Holds g (statement_file r) (generate_endpoints p g mapped d).1
  unfolding generate_endpoints
  generate_endpoints-Holds before after r structs d quiet keeps apart =
      let routes : List Route = both_routes (before ++ r ∷ after) in
      let mapped : List Route = map_routes_to_structs structs routes in
      let c : Text = extract_category r.path in
      let dir : Text = category_dir p g c in
      let path : Text = statement_file r in
      let q : Route → Bool = names_path p g dir path in
      let own : (c =t c && path =t path) ≡ true = rw (=t_refl c, =t_refl path) refl in
      let hit : any (is_of q c) routes ≡ true = both_routes-any q c before after r own in
      let target : is_target p g path mapped c ≡ true =
        select-any q c mapped (map_routes_to_structs-any p g dir path c structs routes ∙ hit) in
      rw (map_routes_to_structs-categories structs [] routes) (
        generate_categories-Holds p g quiet path mapped (p.range (categories [] routes)) d
          (map_routes_to_structs-Paired structs routes (both_routes-Paired (before ++ r ∷ after)))
          apart
          (inl (
            any-=t (is_target p g path mapped) c (p.range (categories [] routes))
              (keeps c (categories [] routes) (categories-any q c [] routes hit)) target)))

  -- What holds after the endpoints holds at the end.
  generate-endpoints :
      (routes : List Route) (d : Disk)
      → IsQuiet p
      → (path : Text)
      → ((generate_endpoints p g routes (after_collection d)).0 ≡ ok tt)
        × Holds g path (generate_endpoints p g routes (after_collection d)).1
      → let whole : Action Disk Unit =
          or_wrap (generate_collection_files p g) (codes "failed to generate collection files")
          >> or_wrap (generate_endpoints p g routes) (codes "failed to generate endpoints") in
        ((whole d).0 ≡ ok tt) × Holds g path (whole d).1
  generate-endpoints routes d quiet path (e, h) =
      let m : Action Disk Unit = generate_endpoints p g routes in
      let d' : Disk = (m (after_collection d)).1 in
      let k : Action Disk Unit = or_wrap m (codes "failed to generate endpoints") in
      let done : k (after_collection d) ≡ (ok tt, d') =
        or_wrap-ok m (codes "failed to generate endpoints") (after_collection d) e in
      let c : Action Disk Unit = generate_collection_files p g in
      let made : (or_wrap c (codes "failed to generate collection files") >> k) d ≡ (ok tt, d') =
        then-ok (or_wrap c (codes "failed to generate collection files")) k d (after_collection d) (
          or_wrap-ok c (codes "failed to generate collection files") d
            (ap (λ x. x.0) (collection_files_ok d quiet))
          ∙ ap (λ x. (ok tt, x.1)) (collection_files_ok d quiet))
        ∙ done in
      (ap (λ x. x.0) made, rw made h)

  -- The generator ignores the method that a statement declares. Where RegisterRoutes is the only
  -- function of its name in handlers.go, no literal of its registrations has quotes within, its other
  -- statements register nothing, no call fails, the order of a range keeps the categories, and the
  -- file of a registration is no `folder.bru`, the generation succeeds, but what is left in that
  -- file is a route with the method that the handler's name suggests.
  pub generate-inferred :
      (earlier : Nodes) (signature : Node) (lines : List Line) (later : Nodes)
      (before after : List Registration) (r : Registration) (d : Disk)
      → IsQuiet p
      → KeepsElements p
      → p.parse_file (join g.api_dir (codes "handlers.go"))
        ≡ ok (handlers_file earlier signature lines later)
      → All IsWritten lines
      → register_bodies_all earlier ≡ []
      → register_bodies_all later ≡ []
      → registrations lines ≡ before ++ r ∷ after
      → All
          (λ c. (folder_file p g c =t statement_file r) ≡ false)
          (p.range (categories [] (both_routes (before ++ r ∷ after))))
      → ((generate p g d).0 ≡ ok tt) × Holds g (statement_file r) (generate p g d).1
  unfolding generate
  generate-inferred earlier signature lines later before after r d quiet keeps parsed written
        none_before none_left split apart =
      let regs : List Registration = before ++ r ∷ after in
      let structs : Structs = parse_files p.parse_file g.api_dir api_files [] in
      rw
        (
          parsed,
          parse_routes-both earlier signature lines later written none_before none_left,
          split,
        )
        (generate-endpoints (map_routes_to_structs structs (both_routes regs)) d quiet
          (statement_file r)
          (generate_endpoints-Holds before after r structs (after_collection d) quiet keeps apart))
