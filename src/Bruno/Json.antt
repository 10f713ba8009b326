-- ===== src/Bruno/Json.antt =====
-- internal/brunogen/generator.go: the example of a request's body.
use grabarr.Common.{
  ◌≡◌, refl, ap, Bool, not, Bool-cases, inl, inr, List, [], ◌∷◌, ◌++◌, map, select, if◌then◌else◌,
  Text, codes, join_by, append-nil,
}
use grabarr.Bruno.Structs.{FieldInfo}
use grabarr.Bruno.Endpoint.{
  is_skipped, field_line, comma_before, field_lines, generate_json_example,
}

abbrev is_kept : FieldInfo → Bool
is_kept f = not (is_skipped f)

abbrev pub comma_line : FieldInfo → Text
comma_line f = field_line f ++ codes ","

abbrev pub last_line : FieldInfo → List Text
last_line f = if is_kept f then field_line f ∷ [] else []

comma_before-snoc : (fs : List FieldInfo) (f : FieldInfo) → comma_before (fs ++ f ∷ []) ≡ codes ","
comma_before-snoc [] f = refl
comma_before-snoc (g ∷ fs) f = refl

field_lines-snoc :
    (fs : List FieldInfo) (f : FieldInfo)
    → field_lines (fs ++ f ∷ []) ≡ map comma_line (select is_kept fs) ++ last_line f
unfolding field_lines
field_lines-snoc [] f = elim (Bool-cases (is_skipped f)) [
  | inl y ↦ rw y refl
  | inr n ↦ rw n (ap (λ x. x ∷ []) (append-nil (field_line f)))
]
field_lines-snoc (g ∷ fs) f = elim (Bool-cases (is_skipped g)) [
  | inl y ↦ rw y (field_lines-snoc fs f)
  | inr n ↦ rw (n, comma_before-snoc fs f) (ap (λ x. comma_line g ∷ x) (field_lines-snoc fs f))
]

-- The example of a struct with a last field has a line for each field with a tag. The last field's
-- line has no comma; but all others have one, so the last line of the example has one too where the
-- last field has no tag.
pub generate_json_example-snoc :
    (name : Text) (fs : List FieldInfo) (f : FieldInfo)
    → generate_json_example (record { name = name; fields = fs ++ f ∷ [] })
      ≡ join_by
          (codes "\n")
          (codes "{" ∷ ((map comma_line (select is_kept fs) ++ last_line f) ++ codes "}" ∷ []))
unfolding generate_json_example
generate_json_example-snoc name fs f =
    ap (λ ls. join_by (codes "\n") (codes "{" ∷ (ls ++ codes "}" ∷ []))) (field_lines-snoc fs f)
