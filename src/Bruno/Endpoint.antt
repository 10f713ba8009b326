-- ===== src/Bruno/Endpoint.antt =====
-- internal/brunogen/generator.go: the text of a route's file.
use grabarr.Common.{
  ℕ, zero, suc, ◌==◌, Bool, true, false, not, ◌||◌, Option, none, some, List, [], ◌∷◌, ◌++◌, map,
  if◌then◌else◌, pos, decimal, Text, codes, ◌=t◌, to_lower, split, join_by,
}
use grabarr.Bruno.Patterns.{
  Piece, byte, group, outside, param_pieces, var_pieces, replace_all, replace_first, trim,
  first_part, title,
}
use grabarr.Bruno.Structs.{
  Example, no_example, string, int, zero_float, bool, strings, empty_map, FieldInfo, StructInfo,
}
use grabarr.Bruno.Routes.{Route}

-- `strings.Repeat(" ", n)`
abbrev pub spaces : ℕ → Text
spaces zero = []
spaces (suc n) = b' ' ∷ spaces n

abbrev pub indent_line : ℕ → Text → Text
indent_line n line = if line =t [] then [] else spaces n ++ line

unfoldable pub indent : Text → ℕ → Text
indent text n = join_by (codes "\n") (map (indent_line n) (split b'\n' text))

unfoldable pub get_default_example : Text → Example
get_default_example type_name =
    if type_name =t codes "string"
    then string []
    else if type_name =t codes "int" || type_name =t codes "int64"
    then int (pos 0)
    else if type_name =t codes "float64"
    then zero_float
    else if type_name =t codes "bool"
    then bool false
    else if type_name =t codes "[]string"
    then strings []
    else string []

abbrev pub quoted : Text → Text
quoted t = codes "\"" ++ t ++ codes "\""

-- `%v` of a float64 that is 0 is `0`.
unfoldable pub format_json_value : Example → Text
format_json_value (string t) =
    if t =t codes "METADATA_OBJECT"
    then codes "{\n      \"category\": \"movies\"\n    }"
    else quoted t
format_json_value (int n) = decimal n
format_json_value zero_float = codes "0"
format_json_value (bool true) = codes "true"
format_json_value (bool false) = codes "false"
format_json_value (strings ts) = codes "[" ++ join_by (codes ", ") (map quoted ts) ++ codes "]"
format_json_value no_example = codes "\"\""
format_json_value empty_map = codes "\"\""

abbrev pub or_default : Text → Example → Example
or_default type no_example = get_default_example type
or_default type example = example

abbrev pub is_skipped : FieldInfo → Bool
is_skipped f = f.json_tag =t [] || f.json_tag =t codes "-"

-- A field's line without the comma.
unfoldable pub field_line : FieldInfo → Text
unfolding format_json_value get_default_example
field_line f =
    codes "  \"" ++ f.json_tag ++ codes "\": " ++ format_json_value (or_default f.type f.example)

-- `if i < len(info.Fields)-1`, where the list begins with field `i`.
abbrev pub comma_before : List FieldInfo → Text
comma_before [] = []
comma_before (f ∷ fields) = codes ","

unfoldable pub field_lines : List FieldInfo → List Text
unfolding field_line
field_lines [] = []
field_lines (f ∷ fields) =
    let rest = field_lines fields in
    if is_skipped f then rest else (field_line f ++ comma_before fields) ∷ rest

unfoldable pub generate_json_example : StructInfo → Text
unfolding field_lines
generate_json_example info =
    join_by (codes "\n") (codes "{" ∷ (field_lines info.fields ++ codes "}" ∷ []))

-- The placeholders for the variables of a URL, numbered from `n` on, and the variables.
abbrev pub placeholder : ℕ → Text
placeholder n = codes "__BRUNOVAR" ++ decimal (pos n) ++ codes "__"

unfoldable pub protect : ℕ → List Piece → Text × List Text
protect n [] = ([], [])
protect n (byte c ∷ pieces) = let (url, vars) = protect n pieces in (c ∷ url, vars)
protect n (group t ∷ pieces) =
    let (url, vars) = protect (suc n) pieces in
    (placeholder n ++ url, (codes "{{" ++ t ++ codes "}}") ∷ vars)

unfoldable pub restore : ℕ → List Text → Text → Text
restore n [] url = url
restore n (var ∷ vars) url = restore (suc n) vars (replace_first (placeholder n) var url)

-- What a parameter is replaced by: the match `{inner}` without its braces, up to a colon.
abbrev pub param_name : Text → Text
param_name inner =
    first_part b':' (trim (λ c. c == b'{' || c == b'}') (codes "{" ++ inner ++ codes "}"))

abbrev pub replace_params : Text → Text
replace_params url = replace_all (λ inner. codes ":" ++ param_name inner) (param_pieces outside url)

unfoldable pub bruno_url : (base_url path : Text) → Text
unfolding var_pieces param_pieces protect restore
bruno_url base_url path =
    let (url, vars) = protect 0 (var_pieces outside (base_url ++ (codes "/api/v1" ++ path))) in
    restore 0 vars (replace_params url)

-- The last part of `strings.Split`, which gives at least one.
abbrev last_part : Text → List Text → Text
last_part last [] = last
last_part last (part ∷ parts) = last_part part parts

unfoldable pub route_to_name : Route → Text
route_to_name r =
    if not (r.handler =t [])
    then r.handler
    else title (last_part [] (split b'/' (trim (λ c. c == b'/') r.path)))

-- A block that is there for a list that is not empty.
abbrev list_block : Text → List Text → Text → Text → Text
list_block header [] before after = []
list_block header (p ∷ ps) before after =
    header ++ join_by [] (map (λ t. before ++ t ++ after) (p ∷ ps)) ++ codes "}\n\n"

abbrev body_type : Option StructInfo → Text
body_type none = codes "none"
body_type (some info) = codes "json"

unfoldable pub body_block : Option StructInfo → Text
unfolding indent generate_json_example
body_block none = []
body_block (some info) =
    codes "body:json {\n" ++ indent (generate_json_example info) 2 ++ codes "\n}\n\n"

abbrev meta_block : Text → ℕ → Text
meta_block name seq =
    codes "meta {\n  name: "
    ++ name
    ++ codes "\n  type: http\n  seq: "
    ++ decimal (pos seq)
    ++ codes "\n}\n\n"

abbrev pub method_block : Text → Text → Text → Text
method_block method url body =
    to_lower method
    ++ codes " {\n  url: "
    ++ url
    ++ codes "\n  body: "
    ++ body
    ++ codes "\n  auth: inherit\n}\n\n"

-- The content of generateRouteBruFile's file.
unfoldable pub route_content : (base_url : Text) → Route → (seq : ℕ) → Text
unfolding bruno_url route_to_name body_block
route_content base_url r seq =
    meta_block (route_to_name r) seq
    ++ method_block r.method (bruno_url base_url r.path) (body_type r.request_body)
    ++ list_block (codes "params:path {\n") r.path_params (codes "  ") (codes ": 1\n")
    ++ list_block (codes "params:query {\n") r.query_params (codes "  ~") (codes ": \n")
    ++ body_block r.request_body
    ++ codes "settings {\n  encodeUrl: true\n}\n"
