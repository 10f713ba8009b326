-- ===== src/Bruno/Registration.antt =====
-- internal/brunogen/parser.go on the statements `api.HandleFunc("path", h.Handler).Methods("METHOD")`
-- of internal/api/handlers.go.
use mathlib.Core.List.{reverse-cons, reverse-append, reverse-reverse}
use grabarr.Common.{
  ℕ, ◌≡◌, refl, ap, ◌∙◌, Bool, true, false, ◌==◌, List, [], ◌∷◌, ◌++◌, reverse, append-nil,
  append_assoc, sym, All, All-append, Text, codes, arith,
}
use grabarr.Bruno.Ast.{
  Node, ident, basic_lit, selector, call, func_decl, other, Nodes, nil, cons, inspect, inspect_all,
}
use grabarr.Bruno.Patterns.{trim_left, trim}
use grabarr.Bruno.Routes.{
  Route, route_of, unquoted, infer_method_from_handler, visit_call, visit_calls, register_bodies,
  register_bodies_all, parse_routes,
}

module _ (cut : ℕ → Bool) where
  trim_left-All : (t : Text) → All (λ c. cut c ≡ false) t → trim_left cut t ≡ t
  trim_left-All [] h = refl
  trim_left-All (c ∷ t) (p, h) = ground (arith, p)

  All-reverse : (t : Text) → All (λ c. cut c ≡ false) t → All (λ c. cut c ≡ false) (reverse t)
  All-reverse [] h = tt
  All-reverse (c ∷ t) (p, h) =
      rw (reverse-cons c t)
        (All-append (λ d. cut d ≡ false) (reverse t) (c ∷ []) (All-reverse t h) (p, tt))

  -- Trimming takes what was put around a text that has nothing to trim.
  pub trim_around :
      (a b : ℕ) (t : Text)
      → cut a ≡ true
      → cut b ≡ true
      → All (λ c. cut c ≡ false) t
      → trim cut (a ∷ (t ++ b ∷ [])) ≡ t
  trim_around a b [] ha hb h = ground (arith, ha, hb)
  trim_around a b (c ∷ t) ha hb (p, h) =
      rw
        (
          ha,
          p,
          reverse-append (c ∷ t) (b ∷ []),
          hb,
          trim_left-All (reverse (c ∷ t)) (All-reverse (c ∷ t) (p, h)),
        )
        (reverse-reverse (c ∷ t))

-- A statement, with the texts of its literals.
pub record Registration : Type 0 where
  pub path : Text
  pub handler : Text
  pub method : Text

abbrev IsBare : Text → Type 0
IsBare t = All (λ c. (c == b'"') ≡ false) t

-- A line of the body of RegisterRoutes: a registration, or another statement.
pub data Line : Type 0 where
  registers : Registration → Line
  another : Node → Line

abbrev pub registrations : List Line → List Registration
registrations [] = []
registrations (registers r ∷ lines) = r ∷ registrations lines
registrations (another node ∷ lines) = registrations lines

-- The literals of a registration have no quotes within; another statement registers nothing.
abbrev pub IsWritten : Line → Type 0
IsWritten (registers r) = IsBare r.path × IsBare r.method
IsWritten (another node) = visit_calls (inspect node) ≡ []

abbrev literal : Text → Node
literal t = basic_lit true (b'"' ∷ (t ++ b'"' ∷ []))

abbrev statement : Registration → Node
statement r =
    call
      (selector
        (call (selector (ident (codes "api")) (codes "HandleFunc"))
          (cons (literal r.path) (cons (selector (ident (codes "h")) r.handler) nil)))
        (codes "Methods"))
      (cons (literal r.method) nil)

abbrev pub statements : List Line → Nodes
statements [] = nil
statements (registers r ∷ lines) = cons (other (cons (statement r) nil)) (statements lines)
statements (another node ∷ lines) = cons node (statements lines)

abbrev append_nodes : Nodes → Nodes → Nodes
append_nodes nil later = later
append_nodes (cons node nodes) later = cons node (append_nodes nodes later)

-- A file with RegisterRoutes between its other declarations. The signature has the receiver.
abbrev pub handlers_file :
    (earlier : Nodes) → (signature : Node) → List Line → (later : Nodes) → Node
handlers_file earlier signature lines later = other (
    append_nodes earlier
      (cons (func_decl (codes "RegisterRoutes") signature (other (statements lines))) later))

abbrev pub declared : Registration → Route
declared r = route_of r.method r.path r.handler

abbrev pub inferred : Registration → Route
inferred r = route_of (infer_method_from_handler r.handler) r.path r.handler

abbrev pub both_routes : List Registration → List Route
both_routes [] = []
both_routes (r ∷ regs) = declared r ∷ inferred r ∷ both_routes regs

unquoted-literal : (t : Text) → IsBare t → unquoted (b'"' ∷ (t ++ b'"' ∷ [])) ≡ t
unquoted-literal t h = trim_around (λ c. c == b'"') b'"' b'"' t refl refl h

visit_calls-statement :
    (r : Registration) (nodes : List Node)
    → IsWritten (registers r)
    → visit_calls (inspect (other (cons (statement r) nil)) ++ nodes)
      ≡ declared r ∷ inferred r ∷ visit_calls nodes
unfolding visit_calls inspect
visit_calls-statement r nodes (p, m) =
    rw (unquoted-literal r.path p, unquoted-literal r.method m) refl

visit_calls-append : (xs ys : List Node) → visit_calls (xs ++ ys) ≡ visit_calls xs ++ visit_calls ys
unfolding visit_calls
visit_calls-append [] ys = refl
visit_calls-append (x ∷ xs) ys =
    ap (λ rs. visit_call x ++ rs) (visit_calls-append xs ys)
    ∙ sym (append_assoc (visit_call x) (visit_calls xs) (visit_calls ys))

visit_calls-statements :
    (lines : List Line)
    → All IsWritten lines
    → visit_calls (inspect_all (statements lines)) ≡ both_routes (registrations lines)
unfolding visit_calls inspect
visit_calls-statements [] h = refl
visit_calls-statements (registers r ∷ lines) (w, h) =
    visit_calls-statement r (inspect_all (statements lines)) w
    ∙ ap (λ rs. declared r ∷ inferred r ∷ rs) (visit_calls-statements lines h)
visit_calls-statements (another node ∷ lines) (e, h) =
    visit_calls-append (inspect node) (inspect_all (statements lines))
    ∙ ap (λ rs. rs ++ visit_calls (inspect_all (statements lines))) e
    ∙ visit_calls-statements lines h

register_bodies_all-append :
    (a b : Nodes)
    → register_bodies_all (append_nodes a b) ≡ register_bodies_all a ++ register_bodies_all b
unfolding register_bodies_all
register_bodies_all-append nil b = refl
register_bodies_all-append (cons node nodes) b =
    ap (λ ns. register_bodies node ++ ns) (register_bodies_all-append nodes b)
    ∙ sym (append_assoc (register_bodies node) (register_bodies_all nodes) (register_bodies_all b))

-- Every registration is read as two routes: one with the method it declares, and one with the
-- method that its handler's name suggests. This holds where the literals have no quotes within, the
-- other statements of RegisterRoutes register nothing, and no further function of the file has its
-- name.
pub parse_routes-both :
    (earlier : Nodes) (signature : Node) (lines : List Line) (later : Nodes)
    → All IsWritten lines
    → register_bodies_all earlier ≡ []
    → register_bodies_all later ≡ []
    → parse_routes (handlers_file earlier signature lines later) ≡ both_routes (registrations lines)
unfolding parse_routes register_bodies_all
parse_routes-both earlier signature lines later h none_before none_left =
    rw
      (
        register_bodies_all-append earlier
            (cons (func_decl (codes "RegisterRoutes") signature (other (statements lines))) later),
        none_before,
        none_left,
        visit_calls-statements lines h,
      )
      (append-nil (both_routes (registrations lines)))
