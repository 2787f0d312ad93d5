-- ===== src/Leases/Reconcile.antt =====
-- `ReconcileTerminalFailures`: jobs with a failed subjob are failed, whoever missed to do it.
use codeintel.Base.{
  Bool, false, not, ◌&&◌, ◌||◌, Option, none, some, List, [], ◌∷◌, keep, ℕ, ltb, is_empty, is_some,
  Text, codes, text_eq, text_lt, contains_string, err, Result, if◌then◌else◌, exists_in, find_first,
  update, affected, first, sort_by, ◌==◌,
}
use codeintel.Base.Int.{ℤ, pos, leb_ℤ, eqb_ℤ, pos_part}
use codeintel.Subjobs.{layer_scip}
use codeintel.Leases.{
  skipped, Row, Job, Repo, Store, LeaseError, missing_limit, Answer, respond, is_waiting,
  is_retrying, is_failed_status, is_parent, parent_runs,
}
use codeintel.Leases.Failures.{says_empty, cancel_row, fail_job, fail_repo, joined}
use codeintel.Leases.Requeues.{ids_of}

abbrev pub says_empty_column : Option Text → Bool
says_empty_column none = false
says_empty_column (some message) = says_empty message

unfoldable pub is_semantic_empty : Store → Row → Bool
unfolding parent_runs says_empty
is_semantic_empty s r =
    text_eq r.input.layer layer_scip
    && is_retrying r.status
    && says_empty_column r.error_message
    && parent_runs s r

-- ORDER BY s."updatedAt" ASC, s.id ASC
unfoldable pub oldest_update : Row → Row → Bool
oldest_update a b =
    ltb a.updated_at b.updated_at || (a.updated_at == b.updated_at && text_lt a.input.id b.input.id)

unfoldable pub semantic_empty : (Text → Bool) → Store → ℤ → List Text
unfolding is_semantic_empty oldest_update first sort_by
semantic_empty locked s limit = ids_of (
    first (pos_part limit) (
      sort_by oldest_update
        (keep (λ r. is_semantic_empty s r && not (locked r.input.id)) s.subjobs)))

-- ORDER BY s."repoIndexingJobId", s."updatedAt" DESC, s.id DESC
unfoldable pub failure_order : Row → Row → Bool
failure_order a b =
    if text_eq a.input.repo_indexing_job_id b.input.repo_indexing_job_id
    then ltb b.updated_at a.updated_at
      || (a.updated_at == b.updated_at && text_lt b.input.id a.input.id)
    else text_lt a.input.repo_indexing_job_id b.input.repo_indexing_job_id

-- DISTINCT ON: the first row of each job.
unfoldable pub distinct_jobs : List Text → List Row → List Row
unfolding contains_string
distinct_jobs seen [] = []
distinct_jobs seen (r ∷ rest) =
    let skipping = distinct_jobs seen rest in
    let keeping = distinct_jobs (r.input.repo_indexing_job_id ∷ seen) rest in
    if contains_string seen r.input.repo_indexing_job_id then skipping else r ∷ keeping

unfoldable pub failed_jobs : Store → ℤ → List Row
unfolding parent_runs failure_order distinct_jobs first sort_by
failed_jobs s limit = first (pos_part limit) (
    distinct_jobs []
      (sort_by failure_order (keep (λ r. is_failed_status r.status && parent_runs s r) s.subjobs)))

-- COALESCE(NULLIF(column, ''), text)
abbrev pub or_text : Option Text → Text → Text
or_text none text = text
or_text (some s) text = if is_empty s then text else s

abbrev pub failure_message : Row → Text
failure_message f =
    joined (or_text f.error_code (codes "SUBJOB_FAILED"))
      (or_text f.error_message (codes "terminal subjob failed"))

-- The failed row of the same job.
unfoldable pub failure_of : List Row → Text → Option Row
unfolding find_first
failure_of fs job = find_first (λ f. text_eq job f.input.repo_indexing_job_id) fs

abbrev pub message_of : Option Row → Text
message_of none = []
message_of (some f) = failure_message f

unfoldable pub is_canceled_dependent : List Row → Row → Bool
unfolding failure_of
is_canceled_dependent fs r =
    is_some (failure_of fs r.input.repo_indexing_job_id) && is_waiting r.status

unfoldable pub is_failed_job : List Row → Job → Bool
unfolding exists_in
is_failed_job fs j = exists_in (λ f. is_parent f j) fs && j.in_progress

unfoldable pub skip_row : ℕ → Row → Row
skip_row now r = record r {
  status = skipped;
  lease_owner = none;
  lease_expires_at = none;
  attempt_id = none;
  heartbeat_at = none;
  completed_at = some now;
  updated_at = now;
}

-- A row that both CTEs update is updated once: `second` says by which one. The rows of the first
-- wait no longer, so the second passes over them.
unfoldable pub reconciled_rows : (Text → Bool) → (Text → Bool) → ℕ → ℤ → Store → List Row → List Row
unfolding semantic_empty skip_row is_canceled_dependent cancel_row failure_of update contains_string
reconciled_rows locked second now limit s fs =
    update (is_canceled_dependent fs)
      (λ r. cancel_row now (message_of (failure_of fs r.input.repo_indexing_job_id)) r)
      (update
        (λ r.
          contains_string (semantic_empty locked s limit) r.input.id
          && not (is_canceled_dependent fs r && second r.input.id))
        (skip_row now) s.subjobs)

unfoldable pub reconcile_terminal_failures :
    Answer → (Text → Bool) → (Text → Bool) → ℕ → ℤ → Store → Store × Result LeaseError ℕ
unfolding reconciled_rows failed_jobs is_failed_job fail_job fail_repo failure_of respond update
    affected exists_in
reconcile_terminal_failures answer locked second now limit s =
    if leb_ℤ limit (pos 0)
    then (s, err missing_limit)
    else (let fs = failed_jobs s limit in
        let failing : Repo → Bool =
          λ o. exists_in (λ (j : Job). is_failed_job fs j && eqb_ℤ o.id j.repo_id) s.jobs in
        respond answer s
          (record s {
            subjobs = reconciled_rows locked second now limit s fs;
            jobs =
                update (is_failed_job fs)
                  (λ (j : Job). fail_job now (message_of (failure_of fs j.id)) j) s.jobs;
            repos = update failing (fail_repo now) s.repos;
          })
          (affected failing s.repos))
