-- ===== src/Delta/Languages.antt =====
-- Which manifests have files for the semantic indexers. `strings.ToLower` works on Unicode tables
-- and is taken as any function.
use codeintel.Base.{
  ◌≡◌, refl, inl, inr, Bool, false, not, ◌||◌, none, some, List, [], ◌∷◌, All, is_empty, trim_space,
  if◌then◌else◌, arith, Bool-cases, Text, codes, text_eq, contains_string, has_suffix,
}
use codeintel.Delta.{ManifestFileRow}

-- The `case` of the switch in `manifestHasSemanticCandidates`.
abbrev pub semantic_languages : List Text
semantic_languages =
    codes "typescript"
    ∷ codes "javascript"
    ∷ codes "go"
    ∷ codes "python"
    ∷ codes "java"
    ∷ codes "cpp"
    ∷ codes "c"
    ∷ codes "c++"
    ∷ codes "dotnet"
    ∷ codes "csharp"
    ∷ codes "ruby"
    ∷ codes "rust"
    ∷ codes "dart"
    ∷ []

-- One `case` of the switch over suffixes.
unfoldable pub any_suffix : Text → List Text → Bool
any_suffix lower [] = false
any_suffix lower (s ∷ rest) = has_suffix lower s || any_suffix lower rest

-- The cases of the switch in `inferSemanticLanguageFromPath`, in their order.
abbrev pub suffix_cases : List (List Text × Text)
suffix_cases =
    (
      codes ".ts"
          ∷ codes ".tsx"
          ∷ codes ".js"
          ∷ codes ".jsx"
          ∷ codes ".mts"
          ∷ codes ".cts"
          ∷ codes ".mjs"
          ∷ codes ".cjs"
          ∷ [],
      codes "typescript",
    )
    ∷ (codes ".go" ∷ [], codes "go")
    ∷ (codes ".py" ∷ [], codes "python")
    ∷ (codes ".java" ∷ codes ".scala" ∷ codes ".kt" ∷ [], codes "java")
    ∷ (
      codes ".cc" ∷ codes ".cpp" ∷ codes ".cxx" ∷ codes ".c" ∷ codes ".h" ∷ codes ".hpp" ∷ [],
      codes "cpp",
    )
    ∷ (codes ".cs" ∷ codes ".vb" ∷ codes ".fs" ∷ [], codes "dotnet")
    ∷ (codes ".rb" ∷ [], codes "ruby")
    ∷ (codes ".rs" ∷ [], codes "rust")
    ∷ (codes ".dart" ∷ [], codes "dart")
    ∷ []

unfoldable pub language_of_cases : Text → List (List Text × Text) → Text
unfolding any_suffix
language_of_cases lower [] = []
language_of_cases lower ((suffixes, language) ∷ rest) =
    if any_suffix lower suffixes then language else language_of_cases lower rest

abbrev Accepted : Text → Type 0
Accepted l = contains_string semantic_languages l ≡ not (is_empty l)

language_of_cases-Accepted :
    (lower : Text) (cases : List (List Text × Text))
    → All (λ (c : List Text × Text). Accepted c.1) cases
    → Accepted (language_of_cases lower cases)
unfolding language_of_cases
language_of_cases-Accepted lower [] h = unfold contains_string text_eq in refl
language_of_cases-Accepted lower ((suffixes, language) ∷ rest) h =
    elim (Bool-cases (any_suffix lower suffixes)) [
      | inl e ↦ rw e h.0
      | inr e ↦ rw e (language_of_cases-Accepted lower rest h.1)
    ]

suffix_cases-Accepted : All (λ (c : List Text × Text). Accepted c.1) suffix_cases
unfolding contains_string text_eq
suffix_cases-Accepted = (refl, (refl, (refl, (refl, (refl, (refl, (refl, (refl, (refl, tt)))))))))

module _ (to_lower : Text → Text) where
  unfoldable pub infer_semantic_language_from_path : Text → Text
  infer_semantic_language_from_path path = language_of_cases (to_lower path) suffix_cases

  -- The language of a row: its own in lower case, or that of its path.
  unfoldable pub semantic_language : ManifestFileRow → Text
  semantic_language file =
      let declared : Text = elim file.language [ none ↦ [] | some l ↦ to_lower (trim_space l) ] in
      if is_empty declared then infer_semantic_language_from_path file.path else declared

  unfoldable pub manifest_has_semantic_candidates : List ManifestFileRow → Bool
  manifest_has_semantic_candidates [] = false
  manifest_has_semantic_candidates (file ∷ files) =
      contains_string semantic_languages (semantic_language file)
      || manifest_has_semantic_candidates files

  -- Some path of the manifest has a known suffix.
  abbrev pub any_inferred : List ManifestFileRow → Bool
  any_inferred [] = false
  any_inferred (f ∷ fs) =
      not (is_empty (infer_semantic_language_from_path f.path)) || any_inferred fs

  -- Every language that is inferred from a path is one that the semantic indexers take, so a row
  -- without a language is a candidate exactly if its path has a known suffix.
  pub inferred_accepted :
      (path : Text)
      → contains_string semantic_languages (infer_semantic_language_from_path path)
        ≡ not (is_empty (infer_semantic_language_from_path path))
  unfolding infer_semantic_language_from_path
  inferred_accepted path =
      language_of_cases-Accepted (to_lower path) suffix_cases suffix_cases-Accepted

  -- A manifest whose rows declare no language has semantic candidates exactly if some path has a
  -- known suffix.
  pub candidates_by_path :
      (files : List ManifestFileRow)
      → All (λ (f : ManifestFileRow). f.language ≡ none) files
      → manifest_has_semantic_candidates files ≡ any_inferred files
  unfolding manifest_has_semantic_candidates semantic_language
  candidates_by_path [] h = refl
  candidates_by_path (f ∷ fs) h =
      ground (arith, h.0, inferred_accepted f.path, candidates_by_path fs h.1)
