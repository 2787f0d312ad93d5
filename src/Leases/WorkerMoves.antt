-- ===== src/Leases/WorkerMoves.antt =====
-- What the calls of a worker may do to the rows.
use codeintel.Base.{
  ◌≡◌, Bool, true, false, not, ◌||◌, List, ℕ, All-intro, arith, Text, Result, ok, err, is_empty,
  if◌then◌else◌,
}
use codeintel.Subjobs.{owns_queue}
use codeintel.Leases.{
  Row, Store, LeaseError, missing_holder, missing_scope, queue_mismatch, Answer, done, refused,
  lost, respond, in_flight, is_waiting, is_claimed, has_attempts, update_row,
}
use codeintel.Leases.Claims.{
  ClaimScope, lacks_scope, claim_scoped, claim_row, claimable, may_claim, heartbeat, beat_row,
  may_beat, mark_artifact_written, write_row, may_write, may_finish, mark_succeeded, succeed_row,
  lacks_holder,
}
use codeintel.Subjobs.{CreateInput, Payload}
use codeintel.Leases.Validation.{
  ArtifactStore, may_validate, validate_row, validate_live_subjob_lease,
}
use codeintel.Leases.Failures.{
  mark_failed, mark_retryable_infrastructure_failure, fail_parent, then_fail_parent, failure_status,
  infrastructure_status, cancel_row, is_dependent, normalize_failure, failed_row, given_up_row,
  may_give_up, joined,
}
use codeintel.Leases.Steps.{
  may_end, Step, claims, beats, writes, validates, succeeds, fails, cancels, Moves, Moves-refl,
  Moves-trans, Moves-update,
}

-- An answer leaves the tables as they were, or as the statement makes them.
pub respond-Moves {ℓ} :
    {A : Type ℓ} (answer : Answer) (s t : Store) (a : A)
    → Moves s.subjobs t.subjobs
    → Moves s.subjobs (respond answer s t a).0.subjobs
unfolding respond
respond-Moves done s t a m = m
respond-Moves refused s t a m = Moves-refl s.subjobs
respond-Moves lost s t a m = m

pub update_row-Moves :
    (answer : Answer) (p : Row → Bool) (f : Row → Row) (s : Store)
    → ((r : Row) → p r ≡ true → Step r (f r))
    → Moves s.subjobs (update_row answer p f s).0.subjobs
unfolding update_row
update_row-Moves answer p f s step =
    respond-Moves answer s _ _
      (Moves-update p f s.subjobs (All-intro (λ r. p r ≡ true → Step r (f r)) s.subjobs step))

-- A guard in front of a statement.
pub guard-Moves {ℓ} :
    {A : Type ℓ} (bad : Bool) (s : Store) (e : LeaseError) (x : Store × Result LeaseError A)
    → Moves s.subjobs x.0.subjobs
    → Moves s.subjobs (if bad then (s, err e) else x).0.subjobs
guard-Moves true s e x m = Moves-refl s.subjobs
guard-Moves false s e x m = m

may_claim-test :
    (scope : ClaimScope) (s : Store) (now : ℕ) (r : Row)
    → may_claim scope s now r ≡ true
    → ((is_waiting r.status || is_claimed r.status) ≡ true) × (has_attempts r ≡ true)
unfolding may_claim claimable
may_claim-test scope s now r h = ground arith

pub claim-Moves :
    (answer : Answer) (now : ℕ) (scope : ClaimScope) (owner attempt_id : Text) (until : ℕ)
    (s : Store)
    → Moves s.subjobs (claim_scoped answer now scope owner attempt_id until s).0.subjobs
unfolding claim_scoped
claim-Moves answer now scope owner attempt_id until s =
    guard-Moves (lacks_scope scope) s missing_scope _ (
      guard-Moves (not (owns_queue scope.worker_class scope.queue_name)) s queue_mismatch _ (
        guard-Moves (is_empty owner || is_empty attempt_id) s missing_holder _ (
          update_row-Moves answer (may_claim scope s now) (claim_row now owner attempt_id until) s
            (λ r h.
              let k = may_claim-test scope s now r h in
              claims r now owner attempt_id until k.0 k.1))))

pub heartbeat-Moves :
    (answer : Answer) (now : ℕ) (id owner attempt_id : Text) (until : ℕ) (s : Store)
    → Moves s.subjobs (heartbeat answer now id owner attempt_id until s).0.subjobs
unfolding heartbeat may_beat
heartbeat-Moves answer now id owner attempt_id until s =
    update_row-Moves answer (may_beat id owner attempt_id s) (beat_row now until) s
      (λ r h. beats r now until (ground (arith, h)))

pub mark_artifact_written-Moves :
    (answer : Answer) (now : ℕ) (id owner attempt_id temp_path path sha256 : Text) (s : Store)
    → Moves s.subjobs
        (mark_artifact_written answer now id owner attempt_id temp_path path sha256 s).0.subjobs
unfolding mark_artifact_written may_write
mark_artifact_written-Moves answer now id owner attempt_id temp_path path sha256 s =
    update_row-Moves answer (may_write id owner attempt_id s now)
      (write_row now temp_path path sha256) s
      (λ r h. writes r now temp_path path sha256 (ground (arith, h)))

pub validate-Moves :
    (answer : Answer) (now : ℕ) (store : ArtifactStore) (p : Payload) (pending : CreateInput → Bool)
    (owner attempt_id path sha256 : Text) (s : Store)
    → Moves s.subjobs
        (validate_live_subjob_lease answer now store p pending owner attempt_id path sha256
          s).0.subjobs
unfolding validate_live_subjob_lease may_validate
validate-Moves answer now store p pending owner attempt_id path sha256 s =
    update_row-Moves answer (may_validate store p pending owner attempt_id path sha256 s now)
      (validate_row now) s (λ r h. validates r now (ground (arith, h)))

may_finish-in_flight :
    (id owner attempt_id : Text) (s : Store) (now : ℕ) (r : Row)
    → may_finish id owner attempt_id s now r ≡ true
    → in_flight r.status ≡ true
unfolding may_finish
may_finish-in_flight id owner attempt_id s now r h = ground arith

pub mark_succeeded-Moves :
    (answer : Answer) (now : ℕ) (id owner attempt_id : Text) (s : Store)
    → Moves s.subjobs (mark_succeeded answer now id owner attempt_id s).0.subjobs
unfolding mark_succeeded
mark_succeeded-Moves answer now id owner attempt_id s = guard-Moves _ s _ _ (
    update_row-Moves answer (may_finish id owner attempt_id s now) (succeed_row now) s
      (λ r h. succeeds r now (may_finish-in_flight id owner attempt_id s now r h)))

fail_parent-Moves :
    (answer : Answer) (now : ℕ) (id code message : Text) (s : Store)
    → Moves s.subjobs (fail_parent answer now id code message s).0.subjobs
unfolding fail_parent is_dependent
fail_parent-Moves answer now id code message s = respond-Moves answer s _ _ (
    Moves-update (is_dependent id s.subjobs) (cancel_row now (joined code message)) s.subjobs (
      All-intro
        (λ r. is_dependent id s.subjobs r ≡ true → Step r (cancel_row now (joined code message) r))
        s.subjobs (λ r h. cancels r now (joined code message) (ground (arith, h)))))

then_fail_parent-Moves :
    (answer : Answer) (now : ℕ) (id code message : Text) (xs : List Row)
    (x : Store × Result LeaseError Bool)
    → Moves xs x.0.subjobs
    → Moves xs (then_fail_parent answer now id code message x).0.subjobs
unfolding then_fail_parent
then_fail_parent-Moves answer now id code message xs (s, err e) m = m
then_fail_parent-Moves answer now id code message xs (s, ok false) m = m
then_fail_parent-Moves answer now id code message xs (s, ok true) m =
    Moves-trans xs s.subjobs _ m (fail_parent-Moves answer now id code message s)

failure_status-end : (message : Text) (r : Row) → may_end r (failure_status message r) ≡ true
unfolding failure_status
failure_status-end message r = ground arith

infrastructure_status-end : (r : Row) → may_end r (infrastructure_status r) ≡ true
unfolding infrastructure_status
infrastructure_status-end r = ground arith

pub mark_failed-Moves :
    (answer closing : Answer) (now : ℕ) (id owner attempt_id error_code error_message : Text)
    (s : Store)
    → Moves s.subjobs
        (mark_failed answer closing now id owner attempt_id error_code error_message s).0.subjobs
unfolding mark_failed failed_row
mark_failed-Moves answer closing now id owner attempt_id error_code error_message s =
    let (code, message) = normalize_failure error_code error_message in
    guard-Moves (lacks_holder id owner attempt_id) s missing_holder _ (
      then_fail_parent-Moves closing now id code message s.subjobs
        (update_row answer (may_finish id owner attempt_id s now) (failed_row now code message) s)
        (update_row-Moves answer (may_finish id owner attempt_id s now)
          (failed_row now code message) s
          (λ r h.
            fails r now (failure_status message r) code message
              (may_finish-in_flight id owner attempt_id s now r h) (failure_status-end message r))))

pub infrastructure-Moves :
    (answer closing : Answer) (now : ℕ) (id owner attempt_id error_code error_message : Text)
    (s : Store)
    → Moves s.subjobs
        (mark_retryable_infrastructure_failure answer closing now id owner attempt_id error_code
          error_message s).0.subjobs
unfolding mark_retryable_infrastructure_failure given_up_row may_give_up
infrastructure-Moves answer closing now id owner attempt_id error_code error_message s =
    let (code, message) = normalize_failure error_code error_message in
    guard-Moves (lacks_holder id owner attempt_id) s missing_holder _ (
      then_fail_parent-Moves closing now id code message s.subjobs
        (update_row answer (may_give_up id owner attempt_id s now) (given_up_row now code message)
          s)
        (update_row-Moves answer (may_give_up id owner attempt_id s now)
          (given_up_row now code message) s
          (λ r h.
            fails r now (infrastructure_status r) code message (ground (arith, h))
              (infrastructure_status-end r))))
