-- ===== src/Bruno/Structs.antt =====
-- internal/brunogen/struct_parser.go: the request structs of the API's files. What go/parser gives
-- for a path is an argument.
use grabarr.Common.{
  ◌==◌, Bool, true, false, not, ◌||◌, Option, none, some, List, [], ◌∷◌, ◌++◌, if◌then◌else◌, ℤ,
  pos, Text, codes, ◌=t◌, contains, has_prefix, has_suffix, to_lower, join, Result, ok, err,
}
use grabarr.Bruno.Ast.{
  Node, ident, selector, array_type, map_type, star, struct_type, type_spec, gen_decl, Nodes, nil,
  cons, Fields, end, field, inspect,
}
use grabarr.Bruno.Patterns.{trim, first_part, after_first, before_first}

-- The values that an `interface{}` holds as an example; `no_example` is nil.
pub data Example : Type 0 where
  no_example : Example
  string : Text → Example
  int : ℤ → Example
  zero_float : Example
  bool : Bool → Example
  strings : List Text → Example
  empty_map : Example

pub record FieldInfo : Type 0 where
  pub name : Text
  pub type : Text
  pub json_tag : Text
  pub required : Bool
  pub example : Example

pub record StructInfo : Type 0 where
  pub name : Text
  pub fields : List FieldInfo

unfoldable pub type_to_string : Node → Text
type_to_string (ident name) = name
type_to_string (array_type elt) = codes "[]" ++ type_to_string elt
type_to_string (map_type key value) =
    codes "map[" ++ type_to_string key ++ codes "]" ++ type_to_string value
type_to_string (selector x sel) = sel
type_to_string (star x) = codes "*" ++ type_to_string x
type_to_string _ = codes "interface{}"

abbrev pub get_tag_string : Option Text → Text
get_tag_string none = []
get_tag_string (some value) = trim (λ c. c == b'`') value

-- A tag that is `-` is none.
abbrev tag_name : Option Text → Text
tag_name none = []
tag_name (some t) = let name = first_part b',' t in if name =t codes "-" then [] else name

abbrev until_quote : Option Text → Option Text
until_quote none = none
until_quote (some t) = before_first b'"' t

unfoldable pub extract_json_tag : Option Text → Text
extract_json_tag tag = tag_name (until_quote (after_first (codes "json:\"") (get_tag_string tag)))

abbrev typed_example : Text → Example
typed_example type =
    if type =t codes "string"
    then string []
    else if type =t codes "int" || type =t codes "int64"
    then int (pos 0)
    else if type =t codes "float64"
    then zero_float
    else if type =t codes "bool"
    then bool false
    else if type =t codes "[]string"
    then strings []
    else if has_prefix type (codes "map[")
    then empty_map
    else no_example

unfoldable pub get_example_for_field : (field_name type_name : Text) → Example
get_example_for_field field_name type_name =
    let lowered = to_lower field_name in
    if contains lowered (codes "name")
    then string (codes "Example Download")
    else if contains lowered (codes "path")
    then string (
        if contains lowered (codes "remote")
        then codes "/downloads/completed/dp/example-file"
        else codes "/local/path/to/file")
    else if contains lowered (codes "priority")
    then int (pos 5)
    else if contains lowered (codes "retries")
    then int (pos 3)
    else if contains lowered (codes "size")
    then int (pos 1073741824)
    else if contains lowered (codes "category")
    then string (codes "movies")
    else if contains lowered (codes "tags")
    then strings (codes "example" ∷ codes "tag" ∷ [])
    else if contains lowered (codes "hash")
    then string (codes "abc123def456")
    else if lowered =t codes "metadata"
    then string (codes "METADATA_OBJECT")
    else typed_example type_name

-- An embedded field has no name, and is left out; of several names the first is taken.
unfoldable pub parse_fields : Fields → List FieldInfo
unfolding type_to_string extract_json_tag get_example_for_field
parse_fields end = []
parse_fields (field [] type tag fields) = parse_fields fields
parse_fields (field (name ∷ names) type tag fields) =
    let type_name : Text = type_to_string type in
    record {
      name = name;
      type = type_name;
      json_tag = extract_json_tag tag;
      required = not (contains (get_tag_string tag) (codes ",omitempty"));
      example = get_example_for_field name type_name;
    }
    ∷ parse_fields fields

unfoldable pub parse_struct : Text → Fields → StructInfo
unfolding parse_fields
parse_struct name fields = record { name = name; fields = parse_fields fields }

-- `g.structs` with the last one that was stored first.
abbrev pub Structs : Type 0
Structs = List (Text × StructInfo)

abbrev pub find_struct : Text → Structs → Option StructInfo
find_struct name [] = none
find_struct name ((key, info) ∷ structs) =
    if key =t name then some info else find_struct name structs

-- The specifications of a type declaration.
unfoldable pub parse_specs : Nodes → Structs → Structs
unfolding parse_struct
parse_specs nil structs = structs
parse_specs (cons (type_spec name (struct_type fields)) specs) structs = parse_specs specs (
    if has_suffix name (codes "Request")
    then (name, parse_struct name fields) ∷ structs
    else structs)
parse_specs (cons _ specs) structs = parse_specs specs structs

-- The visitor, over the nodes of a file.
unfoldable pub visit_types : List Node → Structs → Structs
unfolding parse_specs
visit_types [] structs = structs
visit_types (gen_decl true specs ∷ nodes) structs = visit_types nodes (parse_specs specs structs)
visit_types (_ ∷ nodes) structs = visit_types nodes structs

-- A file that does not parse is passed over.
unfoldable pub parse_structs_from_file : Result Node → Structs → Structs
unfolding visit_types inspect
parse_structs_from_file (err e) structs = structs
parse_structs_from_file (ok file) structs = visit_types (inspect file) structs

abbrev pub api_files : List Text
api_files = codes "jobs.go" ∷ codes "sync.go" ∷ codes "system.go" ∷ []

unfoldable pub parse_files : (Text → Result Node) → (api_dir : Text) → List Text → Structs → Structs
unfolding parse_structs_from_file
parse_files parse_file api_dir [] structs = structs
parse_files parse_file api_dir (name ∷ names) structs =
    parse_files parse_file api_dir names
      (parse_structs_from_file (parse_file (join api_dir name)) structs)
