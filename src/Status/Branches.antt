-- ===== src/Status/Branches.antt =====
-- pkg/repoindexstatus/branches.go: the status of one branch, and of every known branch.
use codeintel.Base.{
  ◌==◌, Bool, false, not, ◌&&◌, ◌||◌, Option, none, some, List, [], ◌∷◌, ◌++◌, map, keep, is_empty,
  is_some, if◌then◌else◌, Text, codes, text_eq, has_prefix, contains_string, dedup_from,
}
use codeintel.Status.{
  Libraries, RepoIndexState, RepoIndexColor, RepoIndexRunState, not_indexed, RepoInput, LatestJob,
  refs_heads, branch_revision, strip_branch_revision, get_latest_run_state, is_indexed,
  resolve_visible_status, color_for_state, color_for_run_state, run_blocks, parse_metadata,
  is_branch_allowed_by_index_policy, get_policy_visible_indexed_revisions,
}

pub record BranchIndexStatus : Type 0 where
  pub branch : Text
  pub revision : Text
  pub allowed_by_policy : Bool
  pub indexed : Bool
  pub status : RepoIndexState
  pub color : RepoIndexColor
  pub active_index_status : RepoIndexState
  pub active_index_status_color : RepoIndexColor
  pub active_index_usable : Bool
  pub latest_run_status : RepoIndexRunState
  pub latest_run_status_color : RepoIndexColor
  pub latest_run_blocks_active_index : Bool
  pub indexed_at : Option Text
  pub latest_job_id : Option Text
  pub latest_job_type : Option Text
  pub latest_job_status : Option Text

-- `[*?\[\]{}()!+@]`
unfoldable pub glob_meta_re : Text → Bool
glob_meta_re [] = false
glob_meta_re (c ∷ cs) =
    c == b'*'
    || c == b'?'
    || c == b'['
    || c == b']'
    || c == b'{'
    || c == b'}'
    || c == b'('
    || c == b')'
    || c == b'!'
    || c == b'+'
    || c == b'@'
    || glob_meta_re cs

-- The branches of `metadata.indexedRevisions`, without their prefix.
unfoldable pub indexed_branch_names : List Text → List Text
indexed_branch_names revs = map strip_branch_revision (keep (λ rev. has_prefix rev refs_heads) revs)

unfoldable pub configured_branch_names : List Text → List Text
configured_branch_names bs = keep (λ b. not (text_eq b (codes "*") || glob_meta_re b)) bs

module _ (lib : Libraries) (repo : RepoInput) where
  unfoldable pub build_branch_index_status : Text → Option LatestJob → BranchIndexStatus
  build_branch_index_status branch latest_job =
      let branch_name = strip_branch_revision branch in
      let revision = branch_revision branch_name in
      let indexed_revisions = get_policy_visible_indexed_revisions lib repo in
      let allowed = is_branch_allowed_by_index_policy lib repo branch_name in
      let indexed =
        allowed && is_some repo.indexed_at && contains_string indexed_revisions revision in
      let active = if indexed then RepoIndexState.indexed else not_indexed in
      let run = get_latest_run_state repo latest_job in
      let visible = resolve_visible_status active run in
      record {
        branch = branch_name;
        revision = revision;
        allowed_by_policy = allowed;
        indexed = indexed;
        status = visible;
        color = color_for_state visible;
        active_index_status = active;
        active_index_status_color = color_for_state active;
        active_index_usable = is_indexed active;
        latest_run_status = run;
        latest_run_status_color = color_for_run_state run;
        latest_run_blocks_active_index = run_blocks active run;
        indexed_at = if indexed then repo.indexed_at else none;
        latest_job_id = elim latest_job [ none ↦ none | some j ↦ some j.id ];
        latest_job_type = elim latest_job [ none ↦ none | some j ↦ some j.type ];
        latest_job_status = elim latest_job [ none ↦ none | some j ↦ some j.status ];
      }

  unfoldable pub known_branches : List Text
  unfolding indexed_branch_names configured_branch_names
  known_branches =
      let md = parse_metadata lib repo.metadata in
      let first : List Text = elim repo.default_branch [
        | none ↦ []
        | some d ↦ if is_empty d then [] else d ∷ []
      ] in
      first ++ (configured_branch_names md.branches ++ indexed_branch_names md.indexed_revisions)

  unfoldable pub build_known_branch_index_statuses : Option LatestJob → List BranchIndexStatus
  unfolding known_branches
  build_known_branch_index_statuses latest_job =
      map (λ b. build_branch_index_status b latest_job) (dedup_from [] known_branches)
