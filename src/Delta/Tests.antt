-- ===== src/Delta/Tests.antt =====
-- Two manifests of a small repository, and the theorems at them.
use codeintel.Base.{
  ◌≡◌, refl, ◌≢◌, ◌↔◌, true, false, ◌||◌, none, some, List, [], ◌∷◌, Text, codes, text_eq, text_lt,
  contains_string, sort_strings, has_suffix,
}
use codeintel.Delta.{
  ManifestFileRow, DeltaReindexPlan, noop, manifest_file_map, classify, removed, plan_of_changes,
  build_manifest_delta_plan, validate,
}
use codeintel.Delta.Maps.{last_row}
use codeintel.Delta.Classes.{
  change, is_added, is_changed, is_deleted, is_unchanged, plan_classifies,
}
use codeintel.Delta.Plans.{IsQuiet, built_plan_valid, noop_iff, work_reaches_layers}
use codeintel.Delta.Languages.{infer_semantic_language_from_path, language_of_cases}

abbrev row : Text → Text → ManifestFileRow
row path hash = record {
  path = path;
  content_hash = hash;
  language = none;
  project_root = none;
  generated = false;
  vendor = false;
  test = false;
}

abbrev before : List ManifestFileRow
before =
    row (codes "b.go") (codes "1")
    ∷ row (codes "a.go") (codes "1")
    ∷ row (codes "x") (codes "1")
    ∷ []

abbrev after : List ManifestFileRow
after =
    row (codes "c.go") (codes "1")
    ∷ row (codes "a.go") (codes "2")
    ∷ row (codes "x") (codes "1")
    ∷ []

abbrev plan : DeltaReindexPlan
plan = build_manifest_delta_plan before after true

plan_sample :
    (plan.added_files ≡ codes "c.go" ∷ [])
    × (plan.changed_files ≡ codes "a.go" ∷ [])
    × (plan.deleted_files ≡ codes "b.go" ∷ [])
    × (plan.unchanged_files ≡ codes "x" ∷ [])
    × (plan.mode ≡ codes "DELTA")
unfolding build_manifest_delta_plan plan_of_changes classify removed manifest_file_map sort_strings
    text_eq text_lt
plan_sample = (refl, refl, refl, refl, refl)

before_known : before ≢ []
before_known e = cc

plan_classifies_example :
    let c = change (last_row (codes "a.go") before) (last_row (codes "a.go") after) in
    (contains_string plan.added_files (codes "a.go") ≡ is_added c)
    × (contains_string plan.changed_files (codes "a.go") ≡ is_changed c)
    × (contains_string plan.deleted_files (codes "a.go") ≡ is_deleted c)
    × (contains_string plan.unchanged_files (codes "a.go") ≡ is_unchanged c)
plan_classifies_example = plan_classifies before after true (codes "a.go") before_known

noop_iff_example :
    ((build_manifest_delta_plan before before true).mode ≡ noop)
    ↔ ((p : Text) → IsQuiet (change (last_row p before) (last_row p before)))
noop_iff_example = noop_iff before before true before_known

plan_works : plan.mode ≡ noop → ⊥
unfolding build_manifest_delta_plan plan_of_changes classify removed manifest_file_map sort_strings
    text_eq text_lt
plan_works e = cc

work_reaches_layers_example :
    let c = change (last_row (codes "c.go") before) (last_row (codes "c.go") after) in
    (contains_string plan.zoekt.files (codes "c.go") ≡ (is_added c || is_changed c))
    × (contains_string plan.scip.files (codes "c.go") ≡ (is_added c || is_changed c))
    × (contains_string plan.graph.files (codes "c.go") ≡ (is_added c || is_changed c))
    × (contains_string plan.graph.deleted_files (codes "c.go") ≡ is_deleted c)
work_reaches_layers_example =
    work_reaches_layers before after true before_known plan_works (codes "c.go")

built_plan_valid_example : validate (some plan) ≡ none
built_plan_valid_example = built_plan_valid before after true

-- Texts that are in lower case and trimmed already.
abbrev same : Text → Text
same s = s

go_sample : infer_semantic_language_from_path same (codes "a.go") ≡ codes "go"
unfolding infer_semantic_language_from_path language_of_cases has_suffix text_eq
go_sample = refl
