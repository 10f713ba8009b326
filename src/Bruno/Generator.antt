-- ===== src/Bruno/Generator.antt =====
-- internal/brunogen/generator.go: the files of the collection, and the command cmd/bruno-gen. What
-- go/parser gives for a path, the errors of the operating system and the order of a `range` over a
-- map are arguments.
use grabarr.Common.{
  ℕ, suc, Option, none, some, List, [], ◌∷◌, ◌++◌, select, any, if◌then◌else◌, Text, codes, ◌=t◌,
  join, Error, wrapped, Result, ok, err, Action, pure, fail, or_wrap, for_each, ◌>>◌,
}
use grabarr.Bruno.Ast.{Node}
use grabarr.Bruno.Structs.{api_files, parse_files}
use grabarr.Bruno.Routes.{Route, parse_routes, map_routes_to_structs}
use grabarr.Bruno.Endpoint.{route_to_name, route_content}

-- The files' contents by their paths, the last write first, and the number of calls so far.
pub record Disk : Type 0 where
  pub files : List (Text × Text)
  pub calls : ℕ

-- The error of a call by its number, and what a failed write leaves in its file, if it opened it.
pub record Platform : Type 0 where
  pub parse_file : Text → Result Node
  pub fault : ℕ → Option (Error × Option Text)
  pub range : List Text → List Text

pub record Generator : Type 0 where
  pub output_dir : Text
  pub base_url : Text
  pub api_dir : Text

-- Among the files of a disk.
abbrev pub file_at : Text → List (Text × Text) → Option Text
file_at path [] = none
file_at path ((p, content) ∷ files) = if p =t path then some content else file_at path files

abbrev torn : Text → Option Text → List (Text × Text) → List (Text × Text)
torn path none files = files
torn path (some content) files = (path, content) ∷ files

abbrev write_outcome :
    Option (Error × Option Text) → (path content : Text) → Disk → Result Unit × Disk
write_outcome none path content d =
    (ok tt, record { files = (path, content) ∷ d.files; calls = suc d.calls })
write_outcome (some (e, left)) path content d =
    (err e, record { files = torn path left d.files; calls = suc d.calls })

abbrev mkdir_outcome : Option (Error × Option Text) → Disk → Result Unit × Disk
mkdir_outcome none d = (ok tt, record d { calls = suc d.calls })
mkdir_outcome (some (e, left)) d = (err e, record d { calls = suc d.calls })

abbrev pub bruno_json : Text
bruno_json =
    codes
      "{\n  \"version\": \"1\",\n  \"name\": \"grabarr\",\n  \"type\": \"collection\",\n  \"ignore\": [\n    \"node_modules\",\n    \".git\"\n  ]\n}\n"

abbrev pub collection_bru : Text
collection_bru = codes "headers {\n  Content-Type: application/json\n}\n\nauth {\n  mode: none\n}\n"

abbrev pub folder_bru : Text → Text
folder_bru category =
    codes "meta {\n  name: " ++ category ++ codes "\n  seq: 1\n}\n\nauth {\n  mode: inherit\n}\n"

-- The categories of routes, each once.
abbrev pub categories : List Text → List Route → List Text
categories seen [] = seen
categories seen (r ∷ routes) =
    categories (if any (λ c. r.category =t c) seen then seen else seen ++ r.category ∷ []) routes

module _ (p : Platform) where
  abbrev pub write_file : (path content : Text) → Action Disk Unit
  write_file path content d = write_outcome (p.fault d.calls) path content d

  abbrev pub mkdir_all : Text → Action Disk Unit
  mkdir_all path d = mkdir_outcome (p.fault d.calls) d

  module _ (g : Generator) where
    unfoldable pub generate_collection_files : Action Disk Unit
    generate_collection_files =
        write_file (join g.output_dir (codes "bruno.json")) bruno_json
        >> write_file (join g.output_dir (codes "collection.bru")) collection_bru

    abbrev pub route_file : (dir : Text) → Route → Text
    route_file dir r = join dir (route_to_name r ++ codes ".bru")

    unfoldable pub generate_route_bru_file : (dir : Text) → Route → (seq : ℕ) → Action Disk Unit
    unfolding route_content
    generate_route_bru_file dir r seq =
        write_file (route_file dir r) (route_content g.base_url r seq)

    -- The inner loop of generateEndpoints, from a sequence number on.
    unfoldable pub generate_routes : (dir : Text) → (seq : ℕ) → List Route → Action Disk Unit
    unfolding generate_route_bru_file
    generate_routes dir seq [] = pure tt
    generate_routes dir seq (r ∷ routes) =
        generate_route_bru_file dir r seq >> generate_routes dir (suc seq) routes

    abbrev pub category_dir : Text → Text
    category_dir category = join g.output_dir category

    abbrev pub folder_file : Text → Text
    folder_file category = join (category_dir category) (codes "folder.bru")

    unfoldable pub generate_category : List Route → Text → Action Disk Unit
    unfolding generate_routes
    generate_category routes category =
        mkdir_all (category_dir category)
        >> write_file (folder_file category) (folder_bru category)
        >> generate_routes (category_dir category) 1 (select (λ r. r.category =t category) routes)

    unfoldable pub generate_endpoints : List Route → Action Disk Unit
    unfolding generate_category
    generate_endpoints routes = for_each (generate_category routes) (p.range (categories [] routes))

    -- What follows the parsing of handlers.go.
    abbrev pub generate_from : Result Node → Action Disk Unit
    generate_from (err e) =
        fail (
          wrapped (codes "failed to parse routes")
            (wrapped (codes "failed to parse handlers.go") e))
    generate_from (ok file) =
        let structs = parse_files p.parse_file g.api_dir api_files [] in
        or_wrap generate_collection_files (codes "failed to generate collection files")
        >> or_wrap (generate_endpoints (map_routes_to_structs structs (parse_routes file)))
            (codes "failed to generate endpoints")

    unfoldable pub generate : Action Disk Unit
    unfolding generate_collection_files generate_endpoints parse_routes parse_files
        map_routes_to_structs
    generate = generate_from (p.parse_file (join g.api_dir (codes "handlers.go")))

    -- The command, which ends with an error where a call does.
    unfoldable pub bruno_gen : Action Disk Unit
    unfolding generate
    bruno_gen = mkdir_all g.output_dir >> generate
