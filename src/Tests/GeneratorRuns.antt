-- ===== src/Tests/GeneratorRuns.antt =====
-- internal/brunogen on a file with two statements.
use grabarr.Common.{
  ℕ, ◌==◌, Bool, any, any-All, All, ◌≡◌, refl, false, none, some, List, [], ◌∷◌, Text, codes, ◌=t◌,
  if◌then◌else◌, plain, Result, ok, err,
}
use grabarr.Bruno.Ast.{
  Node, Nodes, ident, selector, call, gen_decl, func_decl, other, nil, cons, inspect,
}
use grabarr.Bruno.Endpoint.{bruno_url, route_to_name}
use grabarr.Bruno.Routes.{visit_calls, extract_category, extract_path_params, register_bodies_all}
use grabarr.Bruno.Generator.{Disk, Platform, Generator, generate}
use grabarr.Bruno.Registration.{Registration, Line, registers, another, handlers_file}
use grabarr.Bruno.Overwritten.{Holds}
use grabarr.Bruno.Collection.{statement_file, generate-inferred}
use grabarr.Bruno.Urls.{is_brace, Segment, plain_text, parameter}
use grabarr.Bruno.Variables.{bruno_url-path_of}

abbrev health : Registration
health = record { path = codes "/health"; handler = codes "HealthCheck"; method = codes "GET" }

abbrev retry_job : Registration
retry_job = record {
  path = codes "/jobs/{id:[0-9]+}/retry";
  handler = codes "RetryJob";
  method = codes "POST";
}

-- A method called on a name, with arguments that are names.
abbrev called : (receiver method argument : Text) → Node
called receiver method argument =
    other (cons (call (selector (ident receiver) method) (cons (ident argument) nil)) nil)

abbrev lines : List Line
lines =
    another (called (codes "h") (codes "registerWebRoutes") (codes "r"))
    ∷ another (called (codes "r") (codes "PathPrefix") (codes "api"))
    ∷ registers health
    ∷ registers retry_job
    ∷ another (called (codes "api") (codes "Use") (codes "corsMiddleware"))
    ∷ []

abbrev imports : Nodes
imports = cons (gen_decl false nil) nil

abbrev later : Nodes
later = cons (func_decl (codes "writeSuccess") (other nil) (other nil)) nil

abbrev handlers : Node
handlers = handlers_file imports (other nil) lines later

abbrev parse_file : Text → Result Node
parse_file path =
    if path =t codes "api/handlers.go" then ok handlers else err (plain (codes "no such file"))

abbrev platform : Platform
platform = record { parse_file = parse_file; fault = λ n. none; range = λ xs. xs }

abbrev generator : Generator
generator = record {
  output_dir = codes "bruno";
  base_url = codes "{{baseUrl}}";
  api_dir = codes "api";
}

abbrev empty_disk : Disk
empty_disk = record { files = []; calls = 0 }

abbrev is_quote : ℕ → Bool
is_quote c = c == b'"'

bare : (t : Text) → any is_quote t ≡ false → All (λ c. is_quote c ≡ false) t
bare t h = any-All is_quote t h

generate-inferred_example :
    ((generate platform generator empty_disk).0 ≡ ok tt)
    × Holds generator
        (statement_file platform generator retry_job)
        (generate platform generator empty_disk).1
unfolding visit_calls inspect register_bodies_all extract_category route_to_name
generate-inferred_example =
    generate-inferred platform generator imports (other nil) lines later (health ∷ []) [] retry_job
      empty_disk (λ n. refl) (λ t xs h. h) refl
      (
        refl,
        (
          refl,
          (
            (bare (codes "/health") refl, bare (codes "GET") refl),
            ((bare (codes "/jobs/{id:[0-9]+}/retry") refl, bare (codes "POST") refl), (refl, tt)),
          ),
        ),
      )
      refl refl refl (refl, (refl, tt))

abbrev path : List Segment
path = plain_text (codes "/jobs/") ∷ parameter (codes "id") (some (codes "[0-9]+")) ∷ []

bruno_url-path_of_example :
    (bruno_url (codes "{{u}}") (codes "/jobs/{id:[0-9]+}") ≡ codes "{{u}}/api/v1/jobs/:id")
    × (extract_path_params (codes "/jobs/{id:[0-9]+}") ≡ codes "id" ∷ [])
bruno_url-path_of_example =
    bruno_url-path_of b'u' [] path (refl, tt)
      (
        any-All is_brace (codes "/jobs/") refl,
        (
          (
            any-All is_brace (codes "id") refl,
            (refl, (refl, tt)),
            any-All is_brace (codes "[0-9]+") refl,
          ),
          tt,
        ),
      )
