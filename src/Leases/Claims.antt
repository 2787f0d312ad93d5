-- ===== src/Leases/Claims.antt =====
-- `ClaimScoped`, `Heartbeat`, `MarkArtifactWritten` and `MarkSucceeded`.
use codeintel.Base.{
  Bool, true, false, not, ◌&&◌, ◌||◌, Option, none, some, ℕ, suc, is_empty, is_some, Text, text_eq,
  Result, err, if◌then◌else◌,
}
use codeintel.Base.Int.{ℤ, pos, leb_ℤ, eqb_ℤ}
use codeintel.Subjobs.{is_blank_ptr, owns_queue}
use codeintel.Subjobs.Table.{coalesce}
use codeintel.Leases.{
  Status, claimed, running, artifact_written, succeeded, Row, Store, LeaseError, missing_scope,
  queue_mismatch, missing_holder, Answer, in_flight, is_starting, is_waiting, is_claimed, column_is,
  is_before, is_after, coalesce_ℕ, has_attempts, parent_runs, update_row,
}

pub record ClaimScope : Type 0 where
  pub id : Text
  pub repo_indexing_job_id : Text
  pub org_id : ℤ
  pub workspace_id : Option Text
  pub repo_id : ℤ
  pub branch : Text
  pub revision : Text
  pub commit_hash : Text
  pub layer : Text
  pub language : Option Text
  pub project_root : Option Text
  pub indexer : Option Text
  pub worker_class : Text
  pub queue_name : Text
  pub attempt : ℤ

unfoldable pub lacks_scope : ClaimScope → Bool
lacks_scope scope =
    is_empty scope.id
    || is_empty scope.repo_indexing_job_id
    || leb_ℤ scope.org_id (pos 0)
    || leb_ℤ scope.repo_id (pos 0)
    || is_blank_ptr scope.workspace_id
    || is_empty scope.branch
    || is_empty scope.revision
    || is_empty scope.commit_hash
    || is_empty scope.layer
    || is_empty scope.worker_class
    || is_empty scope.queue_name
    || leb_ℤ scope.attempt (pos 0)

-- The columns of a row are those of a scope; `attempt = scope.Attempt - 1` has the one added on the
-- other side.
unfoldable pub in_scope : ClaimScope → Row → Bool
in_scope scope r =
    text_eq r.input.id scope.id
    && text_eq r.input.repo_indexing_job_id scope.repo_indexing_job_id
    && eqb_ℤ r.input.org_id scope.org_id
    && column_is r.input.workspace_id (coalesce scope.workspace_id)
    && eqb_ℤ r.input.repo_id scope.repo_id
    && text_eq r.input.branch scope.branch
    && text_eq r.input.revision scope.revision
    && text_eq r.input.commit_hash scope.commit_hash
    && text_eq r.input.layer scope.layer
    && text_eq (coalesce r.input.language) (coalesce scope.language)
    && text_eq (coalesce r.input.project_root) (coalesce scope.project_root)
    && text_eq (coalesce r.input.indexer) (coalesce scope.indexer)
    && text_eq r.input.worker_class scope.worker_class
    && text_eq r.input.queue_name scope.queue_name
    && eqb_ℤ (pos (suc r.attempt)) scope.attempt

-- The rest of the claim's condition: no live lease, an attempt left, and the job runs.
unfoldable pub claimable : Store → ℕ → Row → Bool
unfolding parent_runs
claimable s now r =
    (is_waiting r.status || is_claimed r.status)
    && has_attempts r
    && (not (is_some r.lease_expires_at) || is_before r.lease_expires_at now || is_waiting r.status)
    && parent_runs s r

-- The claim's condition.
unfoldable pub may_claim : ClaimScope → Store → ℕ → Row → Bool
unfolding in_scope claimable
may_claim scope s now r = in_scope scope r && claimable s now r

unfoldable pub claim_row : ℕ → Text → Text → ℕ → Row → Row
claim_row now owner attempt_id until r = record r {
  status = claimed;
  attempt = suc r.attempt;
  attempt_id = some attempt_id;
  lease_owner = some owner;
  lease_expires_at = some until;
  heartbeat_at = some now;
  started_at = some (coalesce_ℕ r.started_at now);
  updated_at = now;
}

unfoldable pub claim_scoped :
    Answer → ℕ → ClaimScope → Text → Text → ℕ → Store → Store × Result LeaseError Bool
unfolding lacks_scope may_claim claim_row update_row owns_queue
claim_scoped answer now scope owner attempt_id until s =
    if lacks_scope scope
    then (s, err missing_scope)
    else if not (owns_queue scope.worker_class scope.queue_name)
    then (s, err queue_mismatch)
    else if is_empty owner || is_empty attempt_id
    then (s, err missing_holder)
    else update_row answer (may_claim scope s now) (claim_row now owner attempt_id until) s

-- The row of a subjob that a worker holds under an attempt.
unfoldable pub held_by : Text → Text → Text → Row → Bool
held_by id owner attempt_id r =
    text_eq r.input.id id && column_is r.lease_owner owner && column_is r.attempt_id attempt_id

-- The lease is not NULL and ends later.
abbrev pub is_live : ℕ → Row → Bool
is_live now r = is_after r.lease_expires_at now

unfoldable pub beat_row : ℕ → ℕ → Row → Row
beat_row now until r = record r {
  status = if is_starting r.status then running else r.status;
  lease_expires_at = some until;
  heartbeat_at = some now;
  updated_at = now;
}

unfoldable pub may_beat : Text → Text → Text → Store → Row → Bool
unfolding held_by parent_runs
may_beat id owner attempt_id s r =
    held_by id owner attempt_id r && in_flight r.status && parent_runs s r

unfoldable pub heartbeat :
    Answer → ℕ → Text → Text → Text → ℕ → Store → Store × Result LeaseError Bool
unfolding may_beat beat_row update_row
heartbeat answer now id owner attempt_id until s =
    update_row answer (may_beat id owner attempt_id s) (beat_row now until) s

-- status IN ('CLAIMED', 'RUNNING', 'ARTIFACT_WRITTEN')
abbrev pub is_writable : Status → Bool
is_writable claimed = true
is_writable running = true
is_writable artifact_written = true
is_writable _ = false

unfoldable pub may_write : Text → Text → Text → Store → ℕ → Row → Bool
unfolding held_by parent_runs
may_write id owner attempt_id s now r =
    held_by id owner attempt_id r && is_writable r.status && is_live now r && parent_runs s r

unfoldable pub write_row : ℕ → Text → Text → Text → Row → Row
write_row now temp_path path sha256 r = record r {
  status = artifact_written;
  artifact_temp_path = some temp_path;
  artifact_path = some path;
  artifact_sha256 = some sha256;
  heartbeat_at = some now;
  updated_at = now;
}

unfoldable pub mark_artifact_written :
    Answer → ℕ → Text → Text → Text → Text → Text → Text → Store → Store × Result LeaseError Bool
unfolding may_write write_row update_row
mark_artifact_written answer now id owner attempt_id temp_path path sha256 s =
    update_row answer (may_write id owner attempt_id s now) (write_row now temp_path path sha256) s

-- The condition of `MarkSucceeded` and `MarkFailed`.
unfoldable pub may_finish : Text → Text → Text → Store → ℕ → Row → Bool
unfolding held_by parent_runs
may_finish id owner attempt_id s now r =
    held_by id owner attempt_id r && in_flight r.status && is_live now r && parent_runs s r

unfoldable pub succeed_row : ℕ → Row → Row
succeed_row now r = record r {
  status = succeeded;
  lease_owner = none;
  lease_expires_at = none;
  error_code = none;
  error_message = none;
  completed_at = some now;
  updated_at = now;
}

-- The three methods that finish a subjob refuse an empty name first.
abbrev pub lacks_holder : Text → Text → Text → Bool
lacks_holder id owner attempt_id = is_empty id || is_empty owner || is_empty attempt_id

unfoldable pub mark_succeeded :
    Answer → ℕ → Text → Text → Text → Store → Store × Result LeaseError Bool
unfolding may_finish succeed_row update_row
mark_succeeded answer now id owner attempt_id s =
    if lacks_holder id owner attempt_id
    then (s, err missing_holder)
    else update_row answer (may_finish id owner attempt_id s now) (succeed_row now) s
