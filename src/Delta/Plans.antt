-- ===== src/Delta/Plans.antt =====
-- Whole plans: when nothing is to be done, what a repair plan keeps, and that plans are valid.
use mathlib.Core.Path.{ap₂}
use codeintel.Base.{
  ◌≡◌, refl, sym, ◌∙◌, ap, ◌≢◌, ◌↔◌, Bool, true, false, ◌&&◌, ◌||◌, none, some, List, [], ◌∷◌, ◌++◌,
  is_empty, is_some, arith, Text, text_eq, text_eq_self, contains_string, contains-append,
  contains-sort_strings,
}
use codeintel.Delta.{
  ManifestFileRow, FileMap, lookup, manifest_file_map, paths, DeltaReindexPlan, noop,
  sorted_manifest_keys, plan_of_changes, full_plan, build_manifest_delta_plan,
  force_semantic_repair_plan, validate,
}
use codeintel.Delta.Maps.{last_row, lookup-manifest_file_map, contains-paths}
use codeintel.Delta.Classes.{Change, change, is_added, is_changed, is_deleted, plan_classifies}

pub contains-manifest_keys :
    (m : FileMap) (p : Text) → contains_string (sorted_manifest_keys m) p ≡ is_some (lookup p m)
unfolding sorted_manifest_keys
contains-manifest_keys m p = contains-sort_strings (paths m) p ∙ contains-paths p m

-- Every plan that is built passes `validate`.
pub built_plan_valid :
    (previous current : List ManifestFileRow) (supports_delta : Bool)
    → validate (some (build_manifest_delta_plan previous current supports_delta)) ≡ none
unfolding build_manifest_delta_plan plan_of_changes full_plan validate text_eq
built_plan_valid previous current supports_delta = ground arith

-- A repair plan is valid whatever it repairs. It keeps the file changes, leaves Zoekt alone, and
-- gives SCIP and the graph every file of the manifest.
pub repair_plan :
    (plan : DeltaReindexPlan) (current : List ManifestFileRow) (reason : Text)
    → let r = force_semantic_repair_plan (some plan) current reason in
      (validate (some r) ≡ none)
      × (r.added_files ≡ plan.added_files)
      × (r.changed_files ≡ plan.changed_files)
      × (r.deleted_files ≡ plan.deleted_files)
      × (r.zoekt.strategy ≡ noop)
      × (r.zoekt.files ≡ [])
      × ((p : Text) → contains_string r.scip.files p ≡ is_some (last_row p current))
      × ((p : Text) → contains_string r.graph.files p ≡ is_some (last_row p current))
unfolding force_semantic_repair_plan validate text_eq
repair_plan plan current reason = (ground arith, refl, refl, refl, refl, refl, all_files, all_files)
  where
    all_files :
        (p : Text)
        → contains_string (sorted_manifest_keys (manifest_file_map current)) p
          ≡ is_some (last_row p current)
    all_files p =
        contains-manifest_keys (manifest_file_map current) p
        ∙ ap is_some (lookup-manifest_file_map p current)

-- A slice that holds no path is empty.
empty_of_contains :
    (xs : List Text) → ((p : Text) → contains_string xs p ≡ false) → is_empty xs ≡ true
unfolding contains_string
empty_of_contains [] h = refl
empty_of_contains (x ∷ xs) h = ground (arith, h x, text_eq_self x)

contains_none : (xs : List Text) (p : Text) → is_empty xs ≡ true → contains_string xs p ≡ false
unfolding contains_string
contains_none [] p h = refl
contains_none (x ∷ xs) p h = cc

-- Nothing happened to a path.
abbrev pub IsQuiet : Change → Type 0
IsQuiet c = (is_added c ≡ false) × (is_changed c ≡ false) × (is_deleted c ≡ false)

module _ (previous current : List ManifestFileRow) (supports_delta : Bool)
    (known : previous ≢ []) where
  quiet_iff :
      let plan = build_manifest_delta_plan previous current supports_delta in
      (plan.mode ≡ noop) ↔ (
        (is_empty plan.added_files && is_empty plan.changed_files && is_empty plan.deleted_files)
        ≡ true)
  unfolding build_manifest_delta_plan plan_of_changes
  quiet_iff = by_cases previous known
    where
      by_cases :
          (xs : List ManifestFileRow)
          → xs ≢ []
          → let plan = build_manifest_delta_plan xs current supports_delta in
            (plan.mode ≡ noop) ↔ (
              (is_empty plan.added_files
                && is_empty plan.changed_files
                && is_empty plan.deleted_files)
              ≡ true)
      by_cases [] n = absurd (n refl)
      by_cases (x ∷ xs) n = ground arith

  -- With a previous manifest the plan is NOOP exactly if no path was added, changed or deleted.
  pub noop_iff :
      ((build_manifest_delta_plan previous current supports_delta).mode ≡ noop)
      ↔ ((p : Text) → IsQuiet (change (last_row p previous) (last_row p current)))
  noop_iff =
      let plan = build_manifest_delta_plan previous current supports_delta in
      (
        λ e p.
            let q = quiet_iff.0 e in
            let k = plan_classifies previous current supports_delta p known in
            (
              sym k.0 ∙ contains_none plan.added_files p (ground (arith, q)),
              sym k.1 ∙ contains_none plan.changed_files p (ground (arith, q)),
              sym k.2 ∙ contains_none plan.deleted_files p (ground (arith, q)),
            ),
        λ h. quiet_iff.1 (
            ground (
              arith,
              empty_of_contains plan.added_files
                  (λ p. (plan_classifies previous current supports_delta p known).0 ∙ (h p).0),
              empty_of_contains plan.changed_files
                  (λ p. (plan_classifies previous current supports_delta p known).1 ∙ (h p).1),
              empty_of_contains plan.deleted_files
                  (λ p. (plan_classifies previous current supports_delta p known).2 ∙ (h p).2),
            )),
      )

  touched_files :
      let plan = build_manifest_delta_plan previous current supports_delta in
      (plan.mode ≡ noop → ⊥)
      → (plan.zoekt.files ≡ plan.added_files ++ plan.changed_files)
        × (plan.scip.files ≡ plan.added_files ++ plan.changed_files)
        × (plan.graph.files ≡ plan.added_files ++ plan.changed_files)
        × (plan.graph.deleted_files ≡ plan.deleted_files)
  unfolding build_manifest_delta_plan plan_of_changes
  touched_files = by_cases previous known
    where
      by_cases :
          (xs : List ManifestFileRow)
          → xs ≢ []
          → let plan = build_manifest_delta_plan xs current supports_delta in
            (plan.mode ≡ noop → ⊥)
            → (plan.zoekt.files ≡ plan.added_files ++ plan.changed_files)
              × (plan.scip.files ≡ plan.added_files ++ plan.changed_files)
              × (plan.graph.files ≡ plan.added_files ++ plan.changed_files)
              × (plan.graph.deleted_files ≡ plan.deleted_files)
      by_cases [] n w = absurd (n refl)
      by_cases (x ∷ xs) n w = ground arith

  -- Unless the plan is NOOP, Zoekt, SCIP and the graph each get exactly the added and changed
  -- files, and the graph the deleted ones.
  pub work_reaches_layers :
      let plan = build_manifest_delta_plan previous current supports_delta in
      (plan.mode ≡ noop → ⊥)
      → (p : Text)
      → let c = change (last_row p previous) (last_row p current) in
        (contains_string plan.zoekt.files p ≡ (is_added c || is_changed c))
        × (contains_string plan.scip.files p ≡ (is_added c || is_changed c))
        × (contains_string plan.graph.files p ≡ (is_added c || is_changed c))
        × (contains_string plan.graph.deleted_files p ≡ is_deleted c)
  work_reaches_layers w p =
      let plan = build_manifest_delta_plan previous current supports_delta in
      let t = touched_files w in
      let k = plan_classifies previous current supports_delta p known in
      let both = contains-append plan.added_files plan.changed_files p ∙ ap₂ ◌||◌ k.0 k.1 in
      (rw t.0 both, rw t.1 both, rw t.2 both, rw t.3 k.2)
