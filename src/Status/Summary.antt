-- ===== src/Status/Summary.antt =====
-- What `BuildRepoIndexSummary` and `BuildBranchIndexStatus` promise about a usable index.
use codeintel.Base.{
  ◌≡◌, refl, ◌↔◌, ◌⊎◌, inl, inr, true, false, not, ◌||◌, Option, none, some, [], is_empty,
  if◌then◌else◌, arith, Bool-cases, Option-cases, text_eq_iff, Text, text_eq,
}
use codeintel.Status.{
  no_run, job_type_remove_index, job_status_pending, job_status_in_progress, job_status_failed,
  job_status_completed, Libraries, RepoIndexState, RepoIndexRunState, green, red, RepoInput,
  LatestJob, get_latest_run_state, resolve_visible_status, color_for_state, color_for_run_state,
  run_blocks, build_repo_index_summary,
}

module _ (lib : Libraries) (repo : RepoInput) (job : Option LatestJob) where
  -- The badge says `indexed` exactly when there is a usable index and the latest run does not
  -- block it.
  pub summary_indexed_iff :
      let s = build_repo_index_summary lib repo job in
      (s.status ≡ RepoIndexState.indexed)
      ↔ ((s.active_index_usable ≡ true) × (s.latest_run_blocks_active_index ≡ false))
  unfolding build_repo_index_summary resolve_visible_status run_blocks
  summary_indexed_iff = ground arith

  -- After a failed run a usable index stays visible, green and unblocked; with no usable index
  -- the badge is red and says `failed`.
  pub summary_of_failed_run :
      let s = build_repo_index_summary lib repo job in
      s.latest_run_status ≡ RepoIndexRunState.failed
      → (s.latest_run_status_color ≡ red)
        × (s.color ≡ (if s.active_index_usable then green else red))
        × (s.status
            ≡ (if s.active_index_usable then RepoIndexState.indexed else RepoIndexState.failed))
        × (s.latest_run_blocks_active_index ≡ not s.active_index_usable)
  unfolding build_repo_index_summary resolve_visible_status run_blocks color_for_state
      color_for_run_state
  summary_of_failed_run h = ground arith

-- A run counts as a removal only if the latest job is a REMOVE_INDEX job, and its status, or with
-- an empty one the repository's column, is PENDING or IN_PROGRESS.
pub removing_needs_job :
    (repo : RepoInput) (job : Option LatestJob)
    → get_latest_run_state repo job ≡ RepoIndexRunState.removing
    → (j : LatestJob) × (job ≡ some j)
      × (text_eq j.type job_type_remove_index ≡ true)
      × ((s : Text) × ((j.status ≡ s)
            ⊎ ((j.status ≡ []) × (repo.latest_indexing_job_status ≡ some s)))
          × ((text_eq s job_status_pending || text_eq s job_status_in_progress) ≡ true))
unfolding get_latest_run_state
removing_needs_job repo none h = absurd (never repo.latest_indexing_job_status h)
  where
    never :
        (c : Option Text)
        → (let s : Text = elim c [ none ↦ [] | some x ↦ x ] in
            if text_eq s job_status_pending || text_eq s job_status_in_progress
            then if text_eq [] job_type_remove_index
              then RepoIndexRunState.removing
              else RepoIndexRunState.indexing
            else if text_eq s job_status_failed
            then RepoIndexRunState.failed
            else if text_eq s job_status_completed
            then RepoIndexRunState.completed
            else no_run)
          ≡ RepoIndexRunState.removing
        → ⊥
    never none e = ground (arith, text_eq_iff [] job_type_remove_index)
    never (some x) e = ground (arith, text_eq_iff [] job_type_remove_index)
removing_needs_job repo (some j) h = elim (Bool-cases (is_empty j.status)) [
  | inr e ↦ (j, refl, ground arith, (j.status, inl refl, ground arith))
  | inl e ↦ elim (Option-cases repo.latest_indexing_job_status) [
    | inl n ↦ (j, refl, ground arith, (j.status, inl refl, ground arith))
    | inr (s, n) ↦ (j, refl, ground arith, (s, inr (ground arith, n), ground arith))
  ]
]
