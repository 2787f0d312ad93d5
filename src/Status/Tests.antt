-- ===== src/Status/Tests.antt =====
-- Runs of the status helpers on a small repository, and the theorems at its data.
use codeintel.Base.{
  ◌≡◌, List, ◌∷◌, refl, ◌↔◌, true, false, not, none, some, [], ◌∷◌, ◌++◌, map, if◌then◌else◌, Text,
  codes, text_eq, has_prefix, trim_prefix, drop_as, contains_string,
}
use codeintel.Status.{
  Libraries, RepoMetadata, RepoIndexState, RepoIndexRunState, green, red, RepoInput, LatestJob,
  job_type_remove_index, job_status_pending, refs_heads, refs_tags, branch_revision,
  strip_branch_revision, filter_non_empty, parse_metadata, match_any_glob,
  is_branch_allowed_by_index_policy, is_revision_allowed_by_index_policy,
  get_policy_visible_indexed_revisions, get_latest_run_state, build_repo_index_summary,
}
use codeintel.Status.Branches.{
  BranchIndexStatus, build_branch_index_status, build_known_branch_index_statuses,
  configured_branch_names, glob_meta_re,
}
use codeintel.Status.Summary.{summary_indexed_iff, summary_of_failed_run}
use codeintel.Status.Policy.{Matched, visible_tag}
use codeintel.Status.Known.{indexed_branch_in_summary, known_repeats}

abbrev main : Text
main = codes "main"

abbrev metadata : RepoMetadata
metadata = record {
  branches = main ∷ codes "release/*" ∷ [];
  tags = [] ∷ codes "v*" ∷ [];
  indexed_revisions = codes "refs/heads/main" ∷ codes "refs/tags/v1" ∷ codes "refs/heads/old" ∷ [];
}

-- A decoder that knows one document, and a compiler that reads `v*` only.
abbrev libraries : Libraries
libraries = record {
  unmarshal = λ raw. if text_eq raw (codes "doc") then some metadata else none;
  compile = λ p. if text_eq p (codes "v*") then some (λ s. has_prefix s (codes "v")) else none;
}

abbrev repo : RepoInput
repo = record {
  metadata = codes "doc";
  default_branch = some main;
  indexed_at = some (codes "2026-01-01");
  latest_indexing_job_status = some (codes "FAILED");
}

abbrev plain_policy : RepoMetadata
plain_policy = record {
  branches = main ∷ [];
  tags = [];
  indexed_revisions = codes "refs/heads/main" ∷ [];
}

-- Every pattern is taken literally.
abbrev literal_libraries : Libraries
literal_libraries = record {
  unmarshal = λ raw. some plain_policy;
  compile = λ p. some (λ s. text_eq s p);
}

abbrev removal : LatestJob
removal = record { id = codes "j1"; type = job_type_remove_index; status = [] }

visible_sample : get_policy_visible_indexed_revisions libraries repo ≡ codes "refs/tags/v1" ∷ []
unfolding get_policy_visible_indexed_revisions is_revision_allowed_by_index_policy
    is_branch_allowed_by_index_policy parse_metadata match_any_glob filter_non_empty
    strip_branch_revision text_eq has_prefix trim_prefix drop_as contains_string
visible_sample = refl

failed_run_state :
    (build_repo_index_summary libraries repo none).latest_run_status ≡ RepoIndexRunState.failed
unfolding build_repo_index_summary get_latest_run_state text_eq
failed_run_state = refl

summary_indexed_iff_example :
    let s = build_repo_index_summary libraries repo none in
    (s.status ≡ RepoIndexState.indexed)
    ↔ ((s.active_index_usable ≡ true) × (s.latest_run_blocks_active_index ≡ false))
summary_indexed_iff_example = summary_indexed_iff libraries repo none

summary_of_failed_run_example :
    let s = build_repo_index_summary libraries repo none in
    (s.latest_run_status_color ≡ red)
    × (s.color ≡ (if s.active_index_usable then green else red))
    × (s.status ≡ (if s.active_index_usable then RepoIndexState.indexed else RepoIndexState.failed))
    × (s.latest_run_blocks_active_index ≡ not s.active_index_usable)
summary_of_failed_run_example = summary_of_failed_run libraries repo none failed_run_state

abbrev pending_repo : RepoInput
pending_repo = record repo { latest_indexing_job_status = some job_status_pending }

removing_run : get_latest_run_state pending_repo (some removal) ≡ RepoIndexRunState.removing
unfolding get_latest_run_state text_eq
removing_run = refl

visible_tag_example :
    (contains_string
        (parse_metadata libraries repo.metadata).indexed_revisions
        (refs_tags ++ codes "v1")
      ≡ true)
    × Matched libraries (codes "v1") (parse_metadata libraries repo.metadata).tags
visible_tag_example = visible_tag libraries repo (codes "v1") seen
  where
    seen :
        contains_string
          (get_policy_visible_indexed_revisions libraries repo)
          (refs_tags ++ codes "v1")
        ≡ true
    seen = rw visible_sample (unfold contains_string text_eq in refl)

main_allowed : (build_branch_index_status literal_libraries repo main none).indexed ≡ true
unfolding build_branch_index_status get_policy_visible_indexed_revisions branch_revision
    is_revision_allowed_by_index_policy is_branch_allowed_by_index_policy parse_metadata
    match_any_glob filter_non_empty strip_branch_revision text_eq has_prefix trim_prefix drop_as
    contains_string
main_allowed = refl

indexed_branch_in_summary_example :
    let s = build_branch_index_status literal_libraries repo main none in
    let r = build_repo_index_summary literal_libraries repo none in
    (s.allowed_by_policy ≡ true)
    × (contains_string r.indexed_revisions s.revision ≡ true)
    × (s.active_index_usable ≡ true)
    × (r.active_index_usable ≡ true)
    × (s.active_index_status ≡ r.active_index_status)
    × (s.indexed_at ≡ repo.indexed_at)
    × (s.status ≡ r.status)
indexed_branch_in_summary_example =
    indexed_branch_in_summary literal_libraries repo main none main_allowed

main_listed :
    contains_string
      (build_repo_index_summary literal_libraries repo none).indexed_revisions
      (refs_heads ++ main)
    ≡ true
unfolding build_repo_index_summary get_policy_visible_indexed_revisions
    is_revision_allowed_by_index_policy is_branch_allowed_by_index_policy parse_metadata
    match_any_glob filter_non_empty strip_branch_revision text_eq has_prefix trim_prefix drop_as
    contains_string
main_listed = refl

-- The default branch is configured a second time, by its full name.
abbrev twice_libraries : Libraries
twice_libraries = record {
  unmarshal = λ raw.
      some (record { branches = codes "refs/heads/main" ∷ []; tags = []; indexed_revisions = [] });
  compile = λ p. none;
}

known_repeats_example :
    (others : List Text) × (map
        (λ (s : BranchIndexStatus). s.branch)
        (build_known_branch_index_statuses twice_libraries repo none)
      ≡ main ∷ others)
    × (contains_string others main ≡ true)
unfolding parse_metadata configured_branch_names glob_meta_re has_prefix contains_string text_eq
known_repeats_example = known_repeats twice_libraries repo main none refl refl refl refl
