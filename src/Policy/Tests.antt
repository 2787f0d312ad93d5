-- ===== src/Policy/Tests.antt =====
-- A query about the custom resources of an operator, with ASCII letters that are lower-case already.
use codeintel.Base.{
  ◌≡◌, refl, true, List, [], ◌∷◌, map, ◌≤◌, All, AllDistinct, length, Text, codes, text_eq,
  contains, contains_string, has_prefix,
}
use codeintel.Policy.{hint_key, add, otlp_hints, operator_hints, has_instrumentation_hints}
use codeintel.Policy.Queries.{clean_terms, otlp_flow_pattern, repo_hints, mandatory_source_hints}
use codeintel.Policy.Hints.{mandatory_hints_bounded, mandatory_crd_lines}

abbrev lowered : Text → Text
lowered s = s

abbrev query : Text
query = codes "which crd"

abbrev operators : List Text
operators = codes "my-operator" ∷ []

hinted_lines :
    map (λ h. h.line) (mandatory_source_hints lowered query operators) ≡ 13 ∷ 1 ∷ 1 ∷ 448 ∷ []
unfolding mandatory_source_hints otlp_flow_pattern clean_terms repo_hints add hint_key otlp_hints
    operator_hints has_instrumentation_hints contains has_prefix contains_string text_eq
hinted_lines = refl

quiet_query : mandatory_source_hints lowered (codes "who calls it") operators ≡ []
unfolding mandatory_source_hints otlp_flow_pattern clean_terms repo_hints add hint_key otlp_hints
    operator_hints has_instrumentation_hints contains has_prefix contains_string text_eq
quiet_query = refl

cleaned_terms :
    clean_terms lowered (codes "(abc)" ∷ codes "ab." ∷ codes "abc" ∷ codes "x.yz," ∷ []) 2
    ≡ codes "abc" ∷ codes "x.yz" ∷ []
unfolding clean_terms contains_string text_eq
cleaned_terms = refl

mandatory_hints_bounded_example :
    (length (mandatory_source_hints lowered query operators) ≤ 96)
    × AllDistinct (map hint_key (mandatory_source_hints lowered query operators))
mandatory_hints_bounded_example = mandatory_hints_bounded lowered query operators

mandatory_crd_lines_example :
    All
      (λ h. text_eq h.path (codes "apis/v1alpha1/instrumentation_types.go") ≡ true → h.line ≡ 13)
      (mandatory_source_hints lowered query operators)
mandatory_crd_lines_example = mandatory_crd_lines lowered query operators
