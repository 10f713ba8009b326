-- ===== src/Bruno/Ast.antt =====
-- Go's syntax trees as internal/brunogen reads them, and the walk of `ast.Inspect`.
use grabarr.Common.{Bool, Option, List, [], ◌∷◌, ◌++◌, Text}

-- The nodes that the generator tells apart; any other is `other`, with its children in order.
-- `basic_lit` says whether the literal is a string, with its text as written. The length of an array
-- type and the method set of a type are among the nodes not kept.
mutual
  pub data Node : Type 0 where
    ident : Text → Node
    basic_lit : Bool → Text → Node
    selector : Node → Text → Node
    call : Node → Nodes → Node
    array_type : Node → Node
    map_type : Node → Node → Node
    star : Node → Node
    struct_type : Fields → Node
    type_spec : Text → Node → Node
    gen_decl : (is_type : Bool) → Nodes → Node
    func_decl : Text → (signature body : Node) → Node
    other : Nodes → Node

  pub data Nodes : Type 0 where
    nil : Nodes
    cons : Node → Nodes → Nodes

  -- A field's names, its type and its tag as written, behind each other.
  pub data Fields : Type 0 where
    end : Fields
    field : List Text → Node → Option Text → Fields → Fields

-- The nodes in the order of a walk that always descends. A name within a node is no node here,
-- since no visitor looks at one.
unfoldable mutual
  pub inspect : Node → List Node
  inspect (ident name) = ident name ∷ []
  inspect (basic_lit string value) = basic_lit string value ∷ []
  inspect (selector x sel) = selector x sel ∷ inspect x
  inspect (call fun args) = call fun args ∷ (inspect fun ++ inspect_all args)
  inspect (array_type elt) = array_type elt ∷ inspect elt
  inspect (map_type key value) = map_type key value ∷ (inspect key ++ inspect value)
  inspect (star x) = star x ∷ inspect x
  inspect (struct_type fields) = struct_type fields ∷ inspect_fields fields
  inspect (type_spec name type) = type_spec name type ∷ inspect type
  inspect (gen_decl is_type specs) = gen_decl is_type specs ∷ inspect_all specs
  inspect (func_decl name signature body) =
      func_decl name signature body ∷ (inspect signature ++ inspect body)
  inspect (other nodes) = other nodes ∷ inspect_all nodes

  pub inspect_all : Nodes → List Node
  inspect_all nil = []
  inspect_all (cons node nodes) = inspect node ++ inspect_all nodes

  pub inspect_fields : Fields → List Node
  inspect_fields end = []
  inspect_fields (field names type tag fields) = inspect type ++ inspect_fields fields
