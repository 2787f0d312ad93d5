-- ===== src/Status/Known.antt =====
-- The branch statuses against the summary, and the list of the known branches.
use codeintel.Base.{
  ◌≡◌, refl, sym, inl, inr, true, false, Option, some, List, [], ◌∷◌, ◌++◌, map, keep, All,
  is_empty, arith, Bool-cases, Text, text_eq, text_eq_iff, has_prefix, contains_string,
  trim_prefix_other, has_prefix-append, ◌∙◌, ap, contains-keep, contains-append, AllDistinct,
  dedup_from, contains-dedup_from, dedup_from-AllDistinct, All-dedup_from, contains-map,
}
use codeintel.Status.{
  Libraries, RepoInput, LatestJob, refs_heads, branch_revision, strip_branch_revision,
  parse_metadata, is_branch_allowed_by_index_policy, is_revision_allowed_by_index_policy,
  get_policy_visible_indexed_revisions, build_repo_index_summary,
}
use codeintel.Status.Branches.{
  BranchIndexStatus, build_branch_index_status, indexed_branch_names, configured_branch_names,
  known_branches, build_known_branch_index_statuses,
}
use codeintel.Status.Policy.{strip-branch_revision, strip-refs_heads, visible_lem}

strip_idem : (b : Text) → has_prefix b refs_heads ≡ false → strip_branch_revision b ≡ b
unfolding strip_branch_revision
strip_idem b h = trim_prefix_other b refs_heads h

revision_of_plain :
    (b : Text) → has_prefix b refs_heads ≡ false → branch_revision b ≡ refs_heads ++ b
unfolding branch_revision
revision_of_plain b h = rw h

ne_full_name :
    (d : Text)
    → has_prefix d refs_heads ≡ false
    → contains_string (d ∷ []) (refs_heads ++ d) ≡ false
unfolding contains_string
ne_full_name d plain = elim (Bool-cases (text_eq d (refs_heads ++ d))) [
  | inr f ↦ ground (arith, f)
  | inl t ↦ cc (
    ap (λ s. has_prefix s refs_heads) ((text_eq_iff d (refs_heads ++ d)).0 t),
    plain,
    has_prefix-append refs_heads d,
  )
]

-- The full name passes the look-up among the strings seen, and then loses its prefix.
repeats :
    (d : Text) (rest : List Text)
    → has_prefix d refs_heads ≡ false
    → contains_string rest (refs_heads ++ d) ≡ true
    → (others : List Text) × (map strip_branch_revision (dedup_from [] (d ∷ rest)) ≡ d ∷ others)
      × (contains_string others d ≡ true)
unfolding dedup_from contains_string
repeats d rest plain listed =
    let later = dedup_from (d ∷ []) rest in
    let again : contains_string later (refs_heads ++ d) ≡ true =
      contains-dedup_from (d ∷ []) rest (refs_heads ++ d)
      ∙ ground (arith, listed, ne_full_name d plain) in
    let clash = contains-map strip_branch_revision later (refs_heads ++ d) again in
    (
      map strip_branch_revision later,
      ap (λ s. s ∷ map strip_branch_revision later) (strip_idem d plain),
      ap (contains_string (map strip_branch_revision later)) (sym (strip-refs_heads d)) ∙ clash,
    )

module _ (lib : Libraries) (repo : RepoInput) where
  -- A branch has one status, however it is spelled.
  pub branch_status_spelling :
      (b : Text) (job : Option LatestJob)
      → build_branch_index_status lib repo (branch_revision b) job
        ≡ build_branch_index_status lib repo b job
  unfolding build_branch_index_status
  branch_status_spelling b job = rw (strip-branch_revision b)

  -- A branch that is reported as indexed is allowed, and its revision is among those of the
  -- repository's summary; the branch and the summary both report an indexed, usable index and the
  -- same status over it, and the branch's time is that of the repository.
  pub indexed_branch_in_summary :
      (b : Text) (job : Option LatestJob)
      → let s = build_branch_index_status lib repo b job in
        let r = build_repo_index_summary lib repo job in
        s.indexed ≡ true
        → (s.allowed_by_policy ≡ true)
          × (contains_string r.indexed_revisions s.revision ≡ true)
          × (s.active_index_usable ≡ true)
          × (r.active_index_usable ≡ true)
          × (s.active_index_status ≡ r.active_index_status)
          × (s.indexed_at ≡ repo.indexed_at)
          × (s.status ≡ r.status)
  unfolding build_branch_index_status build_repo_index_summary contains_string
  indexed_branch_in_summary b job h = ground arith

  allowed_of_visible :
      (b : Text)
      → contains_string (get_policy_visible_indexed_revisions lib repo) (refs_heads ++ b) ≡ true
      → is_branch_allowed_by_index_policy lib repo (refs_heads ++ b) ≡ true
  unfolding is_revision_allowed_by_index_policy
  allowed_of_visible b h =
      ground (arith, visible_lem lib repo (refs_heads ++ b), has_prefix-append refs_heads b)

  allowed_plain :
      (b : Text)
      → has_prefix b refs_heads ≡ false
      → is_branch_allowed_by_index_policy lib repo (refs_heads ++ b)
        ≡ is_branch_allowed_by_index_policy lib repo b
  unfolding is_branch_allowed_by_index_policy
  allowed_plain b h = ground (arith, strip-refs_heads b, strip_idem b h)

  -- The other way round: once the repository was indexed, a branch whose revision the summary
  -- lists is reported as indexed.
  pub visible_branch_indexed :
      (b : Text) (job : Option LatestJob) (at : Text)
      → has_prefix b refs_heads ≡ false
      → repo.indexed_at ≡ some at
      → contains_string (build_repo_index_summary lib repo job).indexed_revisions (refs_heads ++ b)
        ≡ true
      → (build_branch_index_status lib repo b job).indexed ≡ true
  unfolding build_branch_index_status build_repo_index_summary
  visible_branch_indexed b job at plain i h =
      rw (strip_idem b plain, revision_of_plain b plain, i)
        (ground (arith, allowed_of_visible b h, allowed_plain b plain))

  branches_of_known :
      (xs : List Text) (job : Option LatestJob)
      → map
          (λ (s : BranchIndexStatus). s.branch)
          (map (λ b. build_branch_index_status lib repo b job) xs)
        ≡ map strip_branch_revision xs
  unfolding build_branch_index_status
  branches_of_known [] job = refl
  branches_of_known (x ∷ xs) job = ap (◌∷◌ (strip_branch_revision x)) (branches_of_known xs job)

  map_strip :
      (xs : List Text)
      → All (λ b. has_prefix b refs_heads ≡ false) xs
      → map strip_branch_revision xs ≡ xs
  map_strip [] h = refl
  map_strip (x ∷ xs) h = rw (strip_idem x h.0, map_strip xs h.1)

  -- Among candidates that carry no `refs/heads/` no branch is listed twice.
  pub known_AllDistinct :
      (job : Option LatestJob)
      → All (λ b. has_prefix b refs_heads ≡ false) (known_branches lib repo)
      → AllDistinct (
          map
            (λ (s : BranchIndexStatus). s.branch)
            (build_known_branch_index_statuses lib repo job))
  unfolding build_known_branch_index_statuses
  known_AllDistinct job h =
      let xs = dedup_from [] (known_branches lib repo) in
      rw (branches_of_known xs job, map_strip xs (All-dedup_from _ [] (known_branches lib repo) h))
        (dedup_from-AllDistinct [] (known_branches lib repo))

  known-indexed :
      (b : Text)
      → contains_string (parse_metadata lib repo.metadata).indexed_revisions (refs_heads ++ b)
        ≡ true
      → contains_string (known_branches lib repo) b ≡ true
  unfolding known_branches indexed_branch_names
  known-indexed b h =
      let revs = (parse_metadata lib repo.metadata).indexed_revisions in
      let kept = keep (λ rev. has_prefix rev refs_heads) revs in
      let k : contains_string kept (refs_heads ++ b) ≡ true =
        contains-keep (λ rev. has_prefix rev refs_heads) revs (refs_heads ++ b)
        ∙ ground (arith, has_prefix-append refs_heads b) in
      let m : contains_string (map strip_branch_revision kept) b ≡ true =
        rw (strip-refs_heads b) at (contains-map strip_branch_revision kept (refs_heads ++ b) k) in
      let conf = configured_branch_names (parse_metadata lib repo.metadata).branches in
      grind (arith, contains-append, m)

  -- Every indexed branch is listed, whatever the policy says of it now.
  pub known_complete :
      (b : Text) (job : Option LatestJob)
      → has_prefix b refs_heads ≡ false
      → contains_string (parse_metadata lib repo.metadata).indexed_revisions (refs_heads ++ b)
        ≡ true
      → contains_string
          (map
            (λ (s : BranchIndexStatus). s.branch)
            (build_known_branch_index_statuses lib repo job))
          b
        ≡ true
  unfolding build_known_branch_index_statuses
  known_complete b job plain h =
      let xs = dedup_from [] (known_branches lib repo) in
      let c : contains_string xs b ≡ true =
        contains-dedup_from [] (known_branches lib repo) b
        ∙ unfold contains_string in known-indexed b h in
      rw (branches_of_known xs job)
        (rw (strip_idem b plain) at (contains-map strip_branch_revision xs b c))

  known_head :
      (d : Text)
      → repo.default_branch ≡ some d
      → is_empty d ≡ false
      → known_branches lib repo
        ≡ d
          ∷ (configured_branch_names (parse_metadata lib repo.metadata).branches
              ++ indexed_branch_names (parse_metadata lib repo.metadata).indexed_revisions)
  unfolding known_branches
  known_head d e n = rw (e, n)

  -- A non-empty default branch without `refs/heads/` that is also configured under its full name is
  -- listed twice among the known branches: it is the first of them, and again among the others.
  pub known_repeats :
      (d : Text) (job : Option LatestJob)
      → repo.default_branch ≡ some d
      → is_empty d ≡ false
      → has_prefix d refs_heads ≡ false
      → contains_string
          (configured_branch_names (parse_metadata lib repo.metadata).branches)
          (refs_heads ++ d)
        ≡ true
      → (others : List Text) × (map
            (λ (s : BranchIndexStatus). s.branch)
            (build_known_branch_index_statuses lib repo job)
          ≡ d ∷ others)
        × (contains_string others d ≡ true)
  unfolding build_known_branch_index_statuses
  known_repeats d job e n plain c =
      let conf = configured_branch_names (parse_metadata lib repo.metadata).branches in
      let idx = indexed_branch_names (parse_metadata lib repo.metadata).indexed_revisions in
      let listed : contains_string (conf ++ idx) (refs_heads ++ d) ≡ true =
        contains-append conf idx (refs_heads ++ d) ∙ ground (arith, c) in
      rw (branches_of_known (dedup_from [] (known_branches lib repo)) job, known_head d e n)
        (repeats d (conf ++ idx) plain listed)
