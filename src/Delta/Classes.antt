-- ===== src/Delta/Classes.antt =====
-- How the plan sorts the paths of two manifests into added, changed, deleted and unchanged files.
use codeintel.Base.{
  ◌≡◌, refl, ◌∙◌, ◌≢◌, inl, inr, Bool, true, false, Option, none, some, List, [], ◌∷◌, is_empty,
  is_some, if◌then◌else◌, arith, Bool-cases, Option-cases, Text, text_eq, text_eq_iff,
  contains_string, AllDistinct, contains-sort_strings, IsAscending, sort_strings-IsAscending,
}
use codeintel.Delta.{
  Changes, ManifestFileRow, FileMap, lookup, manifest_file_map, paths, classify, removed,
  plan_of_changes, full_plan, sorted_manifest_keys, build_manifest_delta_plan,
}
use codeintel.Delta.Maps.{
  last_row, lookup-manifest_file_map, contains-paths, manifest_file_map-AllDistinct,
}

-- What happened to a path between two manifests.
pub data Change : Type 0 where
  absent added changed deleted unchanged : Change

abbrev pub change : Option ManifestFileRow → Option ManifestFileRow → Change
change none none = absent
change none (some c) = added
change (some p) none = deleted
change (some p) (some c) = if text_eq p.content_hash c.content_hash then unchanged else changed

abbrev pub is_added : Change → Bool
is_added added = true
is_added _ = false

abbrev pub is_changed : Change → Bool
is_changed changed = true
is_changed _ = false

abbrev pub is_deleted : Change → Bool
is_deleted deleted = true
is_deleted _ = false

abbrev pub is_unchanged : Change → Bool
is_unchanged unchanged = true
is_unchanged _ = false

-- The three slices hold the paths of `cur` by their change.
record Classified (prev cur : FileMap) (p : Text) : Type 0 where
  by_added :
      contains_string (classify prev cur).added p ≡ is_added (change (lookup p prev) (lookup p cur))
  by_changed :
      contains_string (classify prev cur).changed p
      ≡ is_changed (change (lookup p prev) (lookup p cur))
  by_unchanged :
      contains_string (classify prev cur).unchanged p
      ≡ is_unchanged (change (lookup p prev) (lookup p cur))

classify-Classified :
    (prev cur : FileMap) (p : Text) → AllDistinct (paths cur) → Classified prev cur p
unfolding classify contains_string lookup
classify-Classified prev [] p d = elim (Option-cases (lookup p prev)) [
  | inl e ↦ ground arith
  | inr (f, e) ↦ ground arith
]
classify-Classified prev (c ∷ cs) p d = elim (Bool-cases (text_eq c.path p)) [
  | inl e ↦
      ground
        (arith, classify-Classified prev cs p d.1, (text_eq_iff c.path p).0 e, contains-paths p cs)
  | inr e ↦ ground (arith, classify-Classified prev cs p d.1)
]

removed-deleted :
    (cur prev : FileMap) (p : Text)
    → contains_string (removed cur prev) p ≡ is_deleted (change (lookup p prev) (lookup p cur))
unfolding removed contains_string lookup
removed-deleted cur [] p = elim (Option-cases (lookup p cur)) [
  | inl e ↦ ground arith
  | inr (f, e) ↦ ground arith
]
removed-deleted cur (c ∷ cs) p = elim (Bool-cases (text_eq c.path p)) [
  | inl e ↦ ground (arith, removed-deleted cur cs p, (text_eq_iff c.path p).0 e)
  | inr e ↦ ground (arith, removed-deleted cur cs p)
]

abbrev DistinctChanges : Changes → Type 0
DistinctChanges c = AllDistinct c.added × AllDistinct c.changed × AllDistinct c.unchanged

classify-DistinctChanges :
    (prev cur : FileMap) → AllDistinct (paths cur) → DistinctChanges (classify prev cur)
unfolding classify
classify-DistinctChanges prev [] d = (tt, tt, tt)
classify-DistinctChanges prev (c ∷ cs) d =
    let ih = classify-DistinctChanges prev cs d.1 in
    let k = classify-Classified prev cs c.path d.1 in
    let gone = contains-paths c.path cs in
    elim (Option-cases (lookup c.path prev)) [
      | inl e ↦ rw (e, classify) ((ground (arith, k, gone), ih.0), ih.1, ih.2)
      | inr (f, e) ↦ elim (Bool-cases (text_eq f.content_hash c.content_hash)) [
        | inl s ↦ rw (e, classify) (rw s (ih.0, ih.1, (ground (arith, k, gone), ih.2)))
        | inr s ↦ rw (e, classify) (rw s (ih.0, (ground (arith, k, gone), ih.1), ih.2))
      ]
    ]

removed-AllDistinct :
    (cur prev : FileMap) → AllDistinct (paths prev) → AllDistinct (removed cur prev)
unfolding removed
removed-AllDistinct cur [] d = tt
removed-AllDistinct cur (c ∷ cs) d = elim (Bool-cases (is_some (lookup c.path cur))) [
  | inl e ↦ rw e (removed-AllDistinct cur cs d.1)
  | inr e ↦ rw e (
    ground (arith, removed-deleted cur cs c.path, contains-paths c.path cs, d.0),
    removed-AllDistinct cur cs d.1,
  )
]

module _ (previous current : List ManifestFileRow) (supports_delta : Bool) where
  -- With a previous manifest, each path is listed by what happened to its last row: as added,
  -- changed, deleted or unchanged, and in no other slice.
  pub plan_classifies :
      (p : Text)
      → previous ≢ []
      → let plan = build_manifest_delta_plan previous current supports_delta in
        let c = change (last_row p previous) (last_row p current) in
        (contains_string plan.added_files p ≡ is_added c)
        × (contains_string plan.changed_files p ≡ is_changed c)
        × (contains_string plan.deleted_files p ≡ is_deleted c)
        × (contains_string plan.unchanged_files p ≡ is_unchanged c)
  unfolding build_manifest_delta_plan plan_of_changes
  plan_classifies p h =
      let prev = manifest_file_map previous in
      let cur = manifest_file_map current in
      let k = classify-Classified prev cur p (manifest_file_map-AllDistinct current) in
      rw
        (
          nonempty previous h,
          ← lookup-manifest_file_map p previous,
          ← lookup-manifest_file_map p current,
        )
        (
          contains-sort_strings (classify prev cur).added p ∙ k.by_added,
          contains-sort_strings (classify prev cur).changed p ∙ k.by_changed,
          contains-sort_strings (removed cur prev) p ∙ removed-deleted cur prev p,
          contains-sort_strings (classify prev cur).unchanged p ∙ k.by_unchanged,
        )
    where
      nonempty : (xs : List ManifestFileRow) → xs ≢ [] → is_empty xs ≡ false
      nonempty [] n = absurd (n refl)
      nonempty (x ∷ xs) n = refl

  -- The four slices of every plan are ascending and without repetition.
  pub plan-IsAscending :
      let plan = build_manifest_delta_plan previous current supports_delta in
      IsAscending plan.added_files
      × IsAscending plan.changed_files
      × IsAscending plan.deleted_files
      × IsAscending plan.unchanged_files
  unfolding build_manifest_delta_plan plan_of_changes full_plan sorted_manifest_keys
  plan-IsAscending =
      let prev = manifest_file_map previous in
      let cur = manifest_file_map current in
      let d = classify-DistinctChanges prev cur (manifest_file_map-AllDistinct current) in
      elim (Bool-cases (is_empty previous)) [
        | inl e ↦ rw e (
          sort_strings-IsAscending (paths cur) (manifest_file_map-AllDistinct current),
          tt,
          tt,
          tt,
        )
        | inr e ↦ rw e (
          sort_strings-IsAscending (classify prev cur).added d.0,
          sort_strings-IsAscending (classify prev cur).changed d.1,
          sort_strings-IsAscending (removed cur prev)
              (removed-AllDistinct cur prev (manifest_file_map-AllDistinct previous)),
          sort_strings-IsAscending (classify prev cur).unchanged d.2,
        )
      ]
