-- ===== src/Status.antt =====
-- pkg/repoindexstatus/summary.go: the index policy and the summary of a repository's index.
-- `encoding/json` and `gobwas/glob` are parameters: a decoder of `Repo.metadata` (`none` is a
-- decode error) and a compiler of patterns (`none` is a pattern that does not compile).
pub mod Branches
pub mod Policy
pub mod Summary
pub mod Known
mod Tests
use codeintel.Base.{
  Bool, true, false, not, ◌&&◌, ◌||◌, Option, none, some, List, [], ◌∷◌, ◌++◌, keep, is_empty,
  is_some, if◌then◌else◌, Text, codes, text_eq, has_prefix, trim_prefix, contains_string,
}

pub data RepoIndexState : Type 0 where
  indexed indexing failed not_indexed removing : RepoIndexState

pub data RepoIndexColor : Type 0 where
  green yellow red gray : RepoIndexColor

-- `no_run` is `RunNone`.
pub data RepoIndexRunState : Type 0 where
  completed failed indexing removing no_run : RepoIndexRunState

abbrev pub job_type_remove_index : Text
job_type_remove_index = codes "REMOVE_INDEX"

abbrev pub job_status_pending : Text
job_status_pending = codes "PENDING"

abbrev pub job_status_in_progress : Text
job_status_in_progress = codes "IN_PROGRESS"

abbrev pub job_status_completed : Text
job_status_completed = codes "COMPLETED"

abbrev pub job_status_failed : Text
job_status_failed = codes "FAILED"

-- A nullable column is an `Option`.
pub record RepoInput : Type 0 where
  pub metadata : Text
  pub default_branch : Option Text
  pub indexed_at : Option Text
  pub latest_indexing_job_status : Option Text

pub record LatestJob : Type 0 where
  pub id : Text
  pub type : Text
  pub status : Text

pub record RepoMetadata : Type 0 where
  pub branches : List Text
  pub tags : List Text
  pub indexed_revisions : List Text

pub record RepoIndexSummary : Type 0 where
  pub status : RepoIndexState
  pub color : RepoIndexColor
  pub indexed : Bool
  pub indexed_revisions : List Text
  pub active_index_status : RepoIndexState
  pub active_index_status_color : RepoIndexColor
  pub active_index_usable : Bool
  pub latest_run_status : RepoIndexRunState
  pub latest_run_status_color : RepoIndexColor
  pub latest_run_blocks_active_index : Bool

-- What the package takes from libraries.
pub record Libraries : Type 0 where
  pub unmarshal : Text → Option RepoMetadata
  pub compile : Text → Option (Text → Bool)

abbrev pub refs_heads : Text
refs_heads = codes "refs/heads/"

abbrev pub refs_tags : Text
refs_tags = codes "refs/tags/"

unfoldable pub branch_revision : Text → Text
branch_revision branch = if has_prefix branch refs_heads then branch else refs_heads ++ branch

unfoldable pub strip_branch_revision : Text → Text
strip_branch_revision revision = trim_prefix revision refs_heads

unfoldable pub filter_non_empty : List Text → List Text
filter_non_empty xs = keep (λ s. not (is_empty s)) xs

abbrev pub no_metadata : RepoMetadata
no_metadata = record { branches = []; tags = []; indexed_revisions = [] }

unfoldable pub get_latest_run_state : RepoInput → Option LatestJob → RepoIndexRunState
get_latest_run_state repo latest_job =
    let job_type : Text = elim latest_job [ none ↦ [] | some j ↦ j.type ] in
    let given : Text = elim latest_job [ none ↦ [] | some j ↦ j.status ] in
    let job_status : Text =
      if is_empty given
      then elim repo.latest_indexing_job_status [ none ↦ given | some s ↦ s ]
      else given in
    if text_eq job_status job_status_pending || text_eq job_status job_status_in_progress
    then if text_eq job_type job_type_remove_index
      then RepoIndexRunState.removing
      else RepoIndexRunState.indexing
    else if text_eq job_status job_status_failed
    then RepoIndexRunState.failed
    else if text_eq job_status job_status_completed
    then RepoIndexRunState.completed
    else no_run

abbrev pub is_indexed : RepoIndexState → Bool
is_indexed RepoIndexState.indexed = true
is_indexed _ = false

-- The conversion `RepoIndexState(run)` is made at `indexing` and `removing` only.
unfoldable pub resolve_visible_status : RepoIndexState → RepoIndexRunState → RepoIndexState
resolve_visible_status active RepoIndexRunState.indexing = RepoIndexState.indexing
resolve_visible_status active RepoIndexRunState.removing = RepoIndexState.removing
resolve_visible_status active RepoIndexRunState.failed =
    if not (is_indexed active) then RepoIndexState.failed else active
resolve_visible_status active _ = active

unfoldable pub color_for_state : RepoIndexState → RepoIndexColor
color_for_state RepoIndexState.indexed = green
color_for_state RepoIndexState.failed = red
color_for_state RepoIndexState.indexing = yellow
color_for_state RepoIndexState.removing = yellow
color_for_state _ = gray

unfoldable pub color_for_run_state : RepoIndexRunState → RepoIndexColor
color_for_run_state completed = green
color_for_run_state RepoIndexRunState.failed = red
color_for_run_state RepoIndexRunState.indexing = yellow
color_for_run_state RepoIndexRunState.removing = yellow
color_for_run_state _ = gray

-- `run == RunIndexing || run == RunRemoving || (run == RunFailed && active != StateIndexed)`
unfoldable pub run_blocks : RepoIndexState → RepoIndexRunState → Bool
run_blocks active RepoIndexRunState.indexing = true
run_blocks active RepoIndexRunState.removing = true
run_blocks active RepoIndexRunState.failed = not (is_indexed active)
run_blocks active _ = false

module _ (lib : Libraries) where
  unfoldable pub parse_metadata : Text → RepoMetadata
  parse_metadata raw =
      if is_empty raw
      then no_metadata
      else elim (lib.unmarshal raw) [ none ↦ no_metadata | some md ↦ md ]

  unfoldable pub match_any_glob : Text → List Text → Bool
  match_any_glob name [] = false
  match_any_glob name (pat ∷ rest) =
      let later = match_any_glob name rest in
      elim (lib.compile pat) [ none ↦ later | some matches ↦ matches name || later ]

  unfoldable pub is_branch_allowed_by_index_policy : RepoInput → Text → Bool
  is_branch_allowed_by_index_policy repo branch =
      let branch_name = strip_branch_revision branch in
      let patterns = filter_non_empty (parse_metadata repo.metadata).branches in
      if is_empty patterns
      then elim repo.default_branch [
        | none ↦ true
        | some d ↦ if is_empty d then true else text_eq branch_name d
      ]
      else if contains_string patterns (codes "*")
      then true
      else match_any_glob branch_name patterns

  unfoldable pub is_revision_allowed_by_index_policy : RepoInput → Text → Bool
  is_revision_allowed_by_index_policy repo revision =
      if has_prefix revision refs_heads
      then is_branch_allowed_by_index_policy repo revision
      else if has_prefix revision refs_tags
      then (let tag_patterns = filter_non_empty (parse_metadata repo.metadata).tags in
          if is_empty tag_patterns
          then false
          else match_any_glob (trim_prefix revision refs_tags) tag_patterns)
      else true

  unfoldable pub get_policy_visible_indexed_revisions : RepoInput → List Text
  get_policy_visible_indexed_revisions repo =
      keep (λ rev. not (is_empty rev) && is_revision_allowed_by_index_policy repo rev)
        (parse_metadata repo.metadata).indexed_revisions

  unfoldable pub build_repo_index_summary : RepoInput → Option LatestJob → RepoIndexSummary
  build_repo_index_summary repo latest_job =
      let revisions = get_policy_visible_indexed_revisions repo in
      let active =
        if is_some repo.indexed_at && not (is_empty revisions)
        then RepoIndexState.indexed
        else not_indexed in
      let run = get_latest_run_state repo latest_job in
      let visible = resolve_visible_status active run in
      record {
        status = visible;
        color = color_for_state visible;
        indexed = is_indexed active;
        indexed_revisions = revisions;
        active_index_status = active;
        active_index_status_color = color_for_state active;
        active_index_usable = is_indexed active;
        latest_run_status = run;
        latest_run_status_color = color_for_run_state run;
        latest_run_blocks_active_index = run_blocks active run;
      }
