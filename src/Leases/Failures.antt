-- ===== src/Leases/Failures.antt =====
-- `MarkFailed`, `MarkRetryableInfrastructureFailure` and `failParentIfTerminalFailure`.
use codeintel.Base.{
  Bool, true, false, not, ◌&&◌, ◌||◌, Option, none, some, List, ◌++◌, ℕ, is_empty, Text, codes,
  text_eq, trim_space, Result, ok, err, if◌then◌else◌, exists_in, update,
}
use codeintel.Base.Int.{eqb_ℤ}
use codeintel.Subjobs.{layer_scip}
use codeintel.Leases.{
  Status, failed, retrying, canceled, skipped, Row, Job, Repo, Store, LeaseError, missing_holder,
  Answer, respond, is_starting, is_waiting, is_failed_status, has_attempts, is_semantic, is_parent,
  parent_runs, update_row,
}
use codeintel.Leases.Patterns.{ilike_contains}
use codeintel.Leases.Claims.{held_by, is_live, lacks_holder, may_finish}

unfoldable pub normalize_failure : Text → Text → Text × Text
unfolding trim_space
normalize_failure code message =
    let code = trim_space code in
    let message = trim_space message in
    (
      if is_empty code then codes "SUBJOB_FAILED" else code,
      if is_empty message then codes "subjob failed without diagnostic" else message,
    )

-- The diagnostics of an index that cannot have content.
unfoldable pub says_empty : Text → Bool
unfolding ilike_contains
says_empty message =
    ilike_contains message (codes "semantically empty .scip")
    || ilike_contains message (codes "has no semantic rows:")

unfoldable pub failure_status : Text → Row → Status
unfolding says_empty
failure_status message r =
    if text_eq r.input.layer layer_scip && says_empty message
    then skipped
    else if text_eq r.input.layer layer_scip && ilike_contains message (codes "timeout after")
    then skipped
    else if has_attempts r
    then retrying
    else if is_semantic r.input.layer
    then skipped
    else failed

-- The CASE of `MarkRetryableInfrastructureFailure`.
unfoldable pub infrastructure_status : Row → Status
infrastructure_status r =
    if has_attempts r then retrying else if is_semantic r.input.layer then skipped else failed

-- "completedAt" is NULL exactly in the branch of RETRYING.
abbrev pub completed_unless_retrying : ℕ → Status → Option ℕ
completed_unless_retrying now retrying = none
completed_unless_retrying now _ = some now

unfoldable pub fail_row : ℕ → Status → Text → Text → Row → Row
fail_row now status code message r = record r {
  status = status;
  lease_owner = none;
  lease_expires_at = none;
  attempt_id = none;
  heartbeat_at = none;
  error_code = some code;
  error_message = some message;
  completed_at = completed_unless_retrying now status;
  updated_at = now;
}

unfoldable pub failed_row : ℕ → Text → Text → Row → Row
unfolding failure_status fail_row
failed_row now code message r = fail_row now (failure_status message r) code message r

unfoldable pub given_up_row : ℕ → Text → Text → Row → Row
unfolding infrastructure_status fail_row
given_up_row now code message r = fail_row now (infrastructure_status r) code message r

-- The condition of `MarkRetryableInfrastructureFailure`.
unfoldable pub may_give_up : Text → Text → Text → Store → ℕ → Row → Bool
unfolding held_by parent_runs
may_give_up id owner attempt_id s now r =
    held_by id owner attempt_id r && is_starting r.status && is_live now r && parent_runs s r

-- What the CTE `canceled_dependents` sets.
unfoldable pub cancel_row : ℕ → Text → Row → Row
cancel_row now message r = record r {
  status = canceled;
  lease_owner = none;
  lease_expires_at = none;
  attempt_id = none;
  heartbeat_at = none;
  error_code = some (codes "PARENT_SUBJOB_FAILED");
  error_message = some message;
  completed_at = some now;
  updated_at = now;
}

unfoldable pub fail_job : ℕ → Text → Job → Job
fail_job now message j = record j {
  in_progress = false;
  is_failed = true;
  error_message = some message;
  completed_at = some now;
  updated_at = now;
}

unfoldable pub fail_repo : ℕ → Repo → Repo
fail_repo now o = record o { latest_failed = true; updated_at = now }

-- CONCAT(code, ': ', message)
abbrev pub joined : Text → Text → Text
joined code message = code ++ codes ": " ++ message

-- The row of `failed_subjob`.
abbrev pub failed_subjob : Text → Row → Bool
failed_subjob id f = text_eq f.input.id id && is_failed_status f.status

-- A waiting row of the job whose subjob failed.
unfoldable pub is_dependent : Text → List Row → Row → Bool
unfolding exists_in
is_dependent id rows r =
    exists_in
      (λ f. failed_subjob id f && text_eq r.input.repo_indexing_job_id f.input.repo_indexing_job_id)
      rows
    && not (text_eq r.input.id id)
    && is_waiting r.status

-- The job of the subjob that failed.
unfoldable pub is_failing : Text → List Row → Job → Bool
unfolding exists_in
is_failing id rows j = exists_in (λ f. failed_subjob id f && is_parent f j) rows && j.in_progress

-- All four parts of the statement read the tables as they were.
unfoldable pub fail_parent :
    Answer → ℕ → Text → Text → Text → Store → Store × Result LeaseError (Unit {0})
unfolding is_dependent is_failing cancel_row fail_job fail_repo respond update exists_in
fail_parent answer now id code message s =
    respond answer s
      (record s {
        subjobs =
            update (is_dependent id s.subjobs) (cancel_row now (joined code message)) s.subjobs;
        jobs = update (is_failing id s.subjobs) (fail_job now (joined code message)) s.jobs;
        repos =
            update
              (λ (o : Repo).
                exists_in (λ (j : Job). is_failing id s.subjobs j && eqb_ℤ o.id j.repo_id) s.jobs)
              (fail_repo now) s.repos;
      })
      tt

-- The end of both methods: a row that was affected may have failed its job.
unfoldable pub then_fail_parent :
    Answer
    → ℕ
    → Text
    → Text
    → Text
    → Store × Result LeaseError Bool
    → Store × Result LeaseError Bool
unfolding fail_parent
then_fail_parent answer now id code message (s, err e) = (s, err e)
then_fail_parent answer now id code message (s, ok false) = (s, ok false)
then_fail_parent answer now id code message (s, ok true) =
    let (s', closed) = fail_parent answer now id code message s in
    (s', elim closed [ ok _ ↦ ok true | err e ↦ err e ])

-- The two answers are those of the two statements.
unfoldable pub mark_failed :
    Answer → Answer → ℕ → Text → Text → Text → Text → Text → Store → Store × Result LeaseError Bool
unfolding may_finish failed_row update_row then_fail_parent normalize_failure
mark_failed answer closing now id owner attempt_id error_code error_message s =
    if lacks_holder id owner attempt_id
    then (s, err missing_holder)
    else (let (code, message) = normalize_failure error_code error_message in
        then_fail_parent closing now id code message (
          update_row answer (may_finish id owner attempt_id s now) (failed_row now code message) s))

unfoldable pub mark_retryable_infrastructure_failure :
    Answer → Answer → ℕ → Text → Text → Text → Text → Text → Store → Store × Result LeaseError Bool
unfolding may_give_up given_up_row update_row then_fail_parent normalize_failure
mark_retryable_infrastructure_failure answer closing now id owner attempt_id error_code
      error_message s =
    if lacks_holder id owner attempt_id
    then (s, err missing_holder)
    else (let (code, message) = normalize_failure error_code error_message in
        then_fail_parent closing now id code message (
          update_row answer (may_give_up id owner attempt_id s now) (given_up_row now code message)
            s))
