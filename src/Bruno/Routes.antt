-- ===== src/Bruno/Routes.antt =====
-- internal/brunogen/parser.go: the routes that RegisterRoutes of the API's handlers registers.

use grabarr.Common.{
  ◌==◌, true, ◌||◌, Option, none, some, List, [], ◌∷◌, ◌++◌, map, if◌then◌else◌, Text, codes, ◌=t◌,
  has_prefix, to_lower,
}
use grabarr.Bruno.Ast.{
  Node, ident, basic_lit, selector, call, gen_decl, func_decl, array_type, map_type, star,
  struct_type, type_spec, other, Nodes, nil, cons, Fields, end, field, inspect,
}
use grabarr.Bruno.Patterns.{outside, param_pieces, groups, trim, first_part}
use grabarr.Bruno.Structs.{StructInfo, Structs, find_struct}

pub record Route : Type 0 where
  pub method : Text
  pub path : Text
  pub handler : Text
  pub category : Text
  pub path_params : List Text
  pub query_params : List Text
  pub request_body : Option StructInfo

unfoldable pub extract_path_params : Text → List Text
unfolding param_pieces
extract_path_params path = map (first_part b':') (groups (param_pieces outside path))

unfoldable pub extract_category : Text → Text
extract_category path =
    let part = first_part b'/' (trim (λ c. c == b'/') path) in
    if part =t codes "jobs"
    then codes "jobs"
    else if part =t codes "sync"
    then codes "sync"
    else if part =t codes "health" || part =t codes "metrics" || part =t codes "status"
    then codes "system"
    else codes "misc"

unfoldable pub infer_method_from_handler : Text → Text
infer_method_from_handler handler_name =
    let lowered = to_lower handler_name in
    if has_prefix lowered (codes "create")
    then codes "POST"
    else if has_prefix lowered (codes "get")
    then codes "GET"
    else if has_prefix lowered (codes "delete")
    then codes "DELETE"
    else if has_prefix lowered (codes "update")
    then codes "PUT"
    else if has_prefix lowered (codes "cancel")
    then codes "POST"
    else codes "GET"

-- The name of a handler that is neither a selector nor an identifier is empty.
abbrev pub handler_name_of : Node → Text
handler_name_of (selector x sel) = sel
handler_name_of (ident name) = name
handler_name_of _ = []

abbrev pub unquoted : Text → Text
unquoted value = trim (λ c. c == b'"') value

abbrev pub route_of : (method path handler : Text) → Route
route_of method path handler = record {
  method = method;
  path = path;
  handler = handler;
  category = extract_category path;
  path_params = extract_path_params path;
  query_params = [];
  request_body = none;
}

-- The routes of a HandleFunc call, from its arguments: at most one.
unfoldable pub extract_route : Nodes → List Route
unfolding extract_path_params extract_category infer_method_from_handler
extract_route (cons (basic_lit true value) (cons h args)) =
    let handler = handler_name_of h in
    route_of (infer_method_from_handler handler) (unquoted value) handler ∷ []
extract_route _ = []

-- The same of a HandleFunc call that a Methods call follows, from the arguments of both.
unfoldable pub extract_route_with_method : Nodes → Nodes → List Route
unfolding extract_path_params extract_category
extract_route_with_method (cons (basic_lit true value) (cons h args))
      (cons (basic_lit true method) methods) =
    route_of (unquoted method) (unquoted value) (handler_name_of h) ∷ []
extract_route_with_method _ _ = []

-- What the visitor appends at a call with a name: `X.HandleFunc(args)`, or
-- `X.HandleFunc(inner).Methods(args)`.
abbrev methods_of : Node → Nodes → List Route
methods_of (call (selector x name) inner) args =
    if name =t codes "HandleFunc" then extract_route_with_method inner args else []
methods_of _ args = []

unfoldable pub visit_call : Node → List Route
unfolding extract_route extract_route_with_method
visit_call (call (selector x sel) args) =
    if sel =t codes "HandleFunc"
    then extract_route args
    else if sel =t codes "Methods"
    then methods_of x args
    else []
visit_call _ = []

unfoldable pub visit_calls : List Node → List Route
unfolding visit_call
visit_calls [] = []
visit_calls (node ∷ nodes) = visit_call node ++ visit_calls nodes

-- The bodies of the functions named RegisterRoutes, below which the walk of a file does not descend.
unfoldable mutual
  pub register_bodies : Node → List Node
  register_bodies (ident name) = []
  register_bodies (basic_lit string value) = []
  register_bodies (selector x sel) = register_bodies x
  register_bodies (call fun args) = register_bodies fun ++ register_bodies_all args
  register_bodies (array_type elt) = register_bodies elt
  register_bodies (map_type key value) = register_bodies key ++ register_bodies value
  register_bodies (star x) = register_bodies x
  register_bodies (struct_type fields) = register_bodies_fields fields
  register_bodies (type_spec name type) = register_bodies type
  register_bodies (gen_decl is_type specs) = register_bodies_all specs
  register_bodies (func_decl name signature body) =
      let below = register_bodies signature ++ register_bodies body in
      if name =t codes "RegisterRoutes" then body ∷ [] else below
  register_bodies (other nodes) = register_bodies_all nodes

  pub register_bodies_all : Nodes → List Node
  register_bodies_all nil = []
  register_bodies_all (cons node nodes) = register_bodies node ++ register_bodies_all nodes

  pub register_bodies_fields : Fields → List Node
  register_bodies_fields end = []
  register_bodies_fields (field names type tag fields) =
      register_bodies type ++ register_bodies_fields fields

abbrev pub routes_of_bodies : List Node → List Route
routes_of_bodies [] = []
routes_of_bodies (body ∷ bodies) = visit_calls (inspect body) ++ routes_of_bodies bodies

-- The routes of a file that was parsed.
unfoldable pub parse_routes : Node → List Route
unfolding visit_calls register_bodies inspect
parse_routes file = routes_of_bodies (register_bodies file)

-- `mapRoutesToStructs` on one route.
abbrev pub request_struct : Text → Option Text
request_struct handler =
    if handler =t codes "CreateJob"
    then some (codes "CreateJobRequest")
    else if handler =t codes "CreateSync"
    then some (codes "CreateSyncRequest")
    else none

abbrev or_else : Option StructInfo → Option StructInfo → Option StructInfo
or_else none body = body
or_else (some info) body = some info

abbrev found_struct : Structs → Option Text → Option StructInfo
found_struct structs none = none
found_struct structs (some name) = find_struct name structs

abbrev with_body : Structs → Route → Route
with_body structs r = record r {
  request_body = or_else (found_struct structs (request_struct r.handler)) r.request_body;
}

unfoldable pub map_routes_to_structs : Structs → List Route → List Route
map_routes_to_structs structs routes = map (with_body structs) routes
