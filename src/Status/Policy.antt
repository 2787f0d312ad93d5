-- ===== src/Status/Policy.antt =====
-- The index policy: spellings of a branch, and the revisions that a reader may see.
use codeintel.Base.{
  ◌≡◌, inl, inr, Bool, true, false, not, ◌&&◌, some, List, [], ◌∷◌, ◌++◌, is_empty, arith,
  Bool-cases, Option-cases, Text, text_eq_iff, has_prefix, contains_string, trim_prefix-append,
  trim_prefix_other, sym, ◌∙◌, contains-keep,
}
use codeintel.Status.{
  Libraries, RepoInput, refs_heads, refs_tags, branch_revision, strip_branch_revision,
  filter_non_empty, parse_metadata, match_any_glob, is_revision_allowed_by_index_policy,
  get_policy_visible_indexed_revisions,
}

-- `refs/heads/b` and `b` name the same branch.
pub strip-branch_revision :
    (b : Text) → strip_branch_revision (branch_revision b) ≡ strip_branch_revision b
unfolding branch_revision strip_branch_revision
strip-branch_revision b = elim (Bool-cases (has_prefix b refs_heads)) [
  | inl h ↦ rw h
  | inr h ↦ rw h (trim_prefix-append refs_heads b ∙ sym (trim_prefix_other b refs_heads h))
]

pub strip-refs_heads : (b : Text) → strip_branch_revision (refs_heads ++ b) ≡ b
unfolding strip_branch_revision
strip-refs_heads b = trim_prefix-append refs_heads b

-- Some pattern of the list compiles and matches.
pub Matched : Libraries → Text → List Text → Type 0
Matched lib name pats =
    (p : Text) × (m : Text → Bool) × (contains_string pats p ≡ true)
    × (is_empty p ≡ false)
    × (lib.compile p ≡ some m)
    × (m name ≡ true)

module _ (lib : Libraries) where
  match_any_glob-Matched :
      (name : Text) (pats : List Text)
      → match_any_glob lib name (filter_non_empty pats) ≡ true
      → Matched lib name pats
  unfolding match_any_glob filter_non_empty contains_string Matched
  match_any_glob-Matched name [] h = cc
  match_any_glob-Matched name (p ∷ ps) h = elim (Bool-cases (is_empty p)) [
    | inl e ↦
        let (q, m, i, n, c, y) = match_any_glob-Matched name ps (rw e at h) in
        (q, m, ground arith, n, c, y)
    | inr e ↦ elim (Option-cases (lib.compile p)) [
      | inl c ↦
          let (q, m, i, n, d, y) = match_any_glob-Matched name ps (ground arith) in
          (q, m, ground arith, n, d, y)
      | inr (m, c) ↦ elim (Bool-cases (m name)) [
        | inl y ↦ (p, m, ground (arith, text_eq_iff p p), e, c, y)
        | inr y ↦
            let (q, k, i, n, d, z) = match_any_glob-Matched name ps (ground arith) in
            (q, k, ground arith, n, d, z)
      ]
    ]
  ]

  -- A revision is visible exactly if it was indexed, is not empty and the policy allows it.
  pub visible_lem :
      (repo : RepoInput) (rev : Text)
      → contains_string (get_policy_visible_indexed_revisions lib repo) rev ≡ (
          (not (is_empty rev) && is_revision_allowed_by_index_policy lib repo rev)
          && contains_string (parse_metadata lib repo.metadata).indexed_revisions rev)
  unfolding get_policy_visible_indexed_revisions
  visible_lem repo rev = contains-keep _ (parse_metadata lib repo.metadata).indexed_revisions rev

  tag_rule :
      (repo : RepoInput) (t : Text)
      → is_revision_allowed_by_index_policy lib repo (refs_tags ++ t) ≡ true
      → match_any_glob lib t (filter_non_empty (parse_metadata lib repo.metadata).tags) ≡ true
  unfolding is_revision_allowed_by_index_policy has_prefix
  tag_rule repo t a =
      let tags = filter_non_empty (parse_metadata lib repo.metadata).tags in
      elim (Bool-cases (is_empty tags)) [
        | inl e ↦ cc (rw e at a)
        | inr e ↦ rw (trim_prefix-append refs_tags t) at (rw e at a)
      ]

  -- A tag is visible only if it was indexed and some non-empty tag pattern compiles and matches
  -- its name.
  pub visible_tag :
      (repo : RepoInput) (t : Text)
      → contains_string (get_policy_visible_indexed_revisions lib repo) (refs_tags ++ t) ≡ true
      → (contains_string (parse_metadata lib repo.metadata).indexed_revisions (refs_tags ++ t)
          ≡ true)
        × Matched lib t (parse_metadata lib repo.metadata).tags
  visible_tag repo t h =
      let v = visible_lem repo (refs_tags ++ t) in
      (
        ground (arith, v),
        match_any_glob-Matched t (parse_metadata lib repo.metadata).tags
            (tag_rule repo t (ground (arith, v))),
      )
