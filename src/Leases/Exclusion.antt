-- ===== src/Leases/Exclusion.antt =====
-- A lease excludes all others: a row that is held cannot be claimed, and who does not hold it cannot
-- change it.
use codeintel.Base.{
  ◌≡◌, ◌≢◌, refl, inl, inr, Bool, true, false, not, ◌||◌, some, List, ℕ, All, arith, Text, is_empty,
  Result, ok, err, if◌then◌else◌, Bool-cases,
}
use codeintel.Subjobs.{CreateInput, Payload, owns_queue}
use codeintel.Leases.{
  Row, Store, LeaseError, missing_scope, queue_mismatch, missing_holder, Answer, in_flight,
  is_before,
}
use codeintel.Leases.Claims.{
  ClaimScope, lacks_scope, claimable, may_claim, claim_row, claim_scoped, held_by, may_beat,
  beat_row, heartbeat, may_write, write_row, mark_artifact_written, may_finish, succeed_row,
  mark_succeeded, lacks_holder,
}
use codeintel.Leases.Validation.{
  ArtifactStore, may_validate, validate_row, validate_live_subjob_lease,
}
use codeintel.Leases.Failures.{
  normalize_failure, failed_row, mark_failed, may_give_up, given_up_row,
  mark_retryable_infrastructure_failure, then_fail_parent,
}
use codeintel.Leases.Keys.{IsKeyed}
use codeintel.Leases.Soundness.{IsSound}
use codeintel.Leases.Rows.{row_of, not_met}
use codeintel.Leases.Outcomes.{update_row-missed, may_claim-For}

-- The call changed nothing and did not answer true.
abbrev pub Refused : Store → Store × Result LeaseError Bool → Type 0
Refused s x = (x.0 ≡ s) × (x.1 ≢ ok true)

guard-Refused :
    (bad : Bool) (s : Store) (e : LeaseError) (x : Store × Result LeaseError Bool)
    → Refused s x
    → Refused s (if bad then (s, err e) else x)
guard-Refused true s e x h = (refl, λ q. cc q)
guard-Refused false s e x h = h

leased-may_claim :
    (scope : ClaimScope) (s : Store) (now : ℕ) (r : Row)
    → IsSound r
    → in_flight r.status ≡ true
    → is_before r.lease_expires_at now ≡ false
    → may_claim scope s now r ≡ false
unfolding may_claim claimable IsSound
leased-may_claim scope s now r sound h k = ground arith

-- If the ids of the subjobs are unique and the row of the claim's subjob is sound, in flight, and its
-- lease did not end before now, every claim of it is refused: it changes nothing and does not answer
-- true.
pub leased_row_excluded :
    (answer : Answer) (now : ℕ) (scope : ClaimScope) (owner attempt_id : Text) (until : ℕ)
    (s : Store) (r : Row)
    → IsKeyed s.subjobs
    → row_of scope.id s.subjobs ≡ some r
    → IsSound r
    → in_flight r.status ≡ true
    → is_before r.lease_expires_at now ≡ false
    → Refused s (claim_scoped answer now scope owner attempt_id until s)
unfolding claim_scoped
leased_row_excluded answer now scope owner attempt_id until s r keyed found sound h k =
    guard-Refused (lacks_scope scope) s missing_scope _ (
      guard-Refused (not (owns_queue scope.worker_class scope.queue_name)) s queue_mismatch _ (
        guard-Refused (is_empty owner || is_empty attempt_id) s missing_holder _ (
          update_row-missed answer (may_claim scope s now) (claim_row now owner attempt_id until) s
            (not_met scope.id (may_claim scope s now) s.subjobs r (may_claim-For scope s now) keyed
              found (leased-may_claim scope s now r sound h k)))))

-- A statement for a holder that is not the row's.
not_held :
    (id owner attempt_id : Text) (p : Row → Bool) (xs : List Row) (r : Row)
    → ((y : Row) → p y ≡ true → held_by id owner attempt_id y ≡ true)
    → IsKeyed xs
    → row_of id xs ≡ some r
    → held_by id owner attempt_id r ≡ false
    → All (λ y. p y ≡ false) xs
unfolding held_by
not_held id owner attempt_id p xs r holds keyed found h =
    not_met id p xs r (λ y q. let k = holds y q in ground (arith, k)) keyed found
      (elim (Bool-cases (p r)) [ inr q ↦ q | inl q ↦ cc (holds r q, h) ])

then_fail_parent-Refused :
    (answer : Answer) (now : ℕ) (id code message : Text) (s : Store)
    (x : Store × Result LeaseError Bool)
    → Refused s x
    → Refused s (then_fail_parent answer now id code message x)
unfolding then_fail_parent
then_fail_parent-Refused answer now id code message s (t, err e) h = h
then_fail_parent-Refused answer now id code message s (t, ok false) h = h
then_fail_parent-Refused answer now id code message s (t, ok true) h = absurd (h.1 refl)

-- If the ids of the subjobs are unique and the row of the subjob is not held under this owner and
-- attempt id, all six calls of a worker that says so are refused: they change nothing, not even the
-- parent job, and do not answer true.
pub stranger-Refused :
    (answer closing : Answer) (now : ℕ) (id owner attempt_id : Text) (s : Store) (r : Row)
    → IsKeyed s.subjobs
    → row_of id s.subjobs ≡ some r
    → held_by id owner attempt_id r ≡ false
    → ((until : ℕ) → Refused s (heartbeat answer now id owner attempt_id until s))
      × ((temp_path path sha256 : Text)
          → Refused s
              (mark_artifact_written answer now id owner attempt_id temp_path path sha256 s))
      × Refused s (mark_succeeded answer now id owner attempt_id s)
      × ((code message : Text)
          → Refused s (mark_failed answer closing now id owner attempt_id code message s))
      × ((code message : Text)
          → Refused s (
              mark_retryable_infrastructure_failure answer closing now id owner attempt_id code
                message s))
      × ((store : ArtifactStore) (p : Payload) (pending : CreateInput → Bool) (path sha256 : Text)
          → Refused s (
              validate_live_subjob_lease answer now store
                (record p { subjob_id = id })
                pending
                owner
                attempt_id
                path
                sha256
                s))
unfolding heartbeat mark_artifact_written mark_succeeded mark_failed
    mark_retryable_infrastructure_failure validate_live_subjob_lease may_beat may_write may_finish
    may_give_up may_validate
stranger-Refused answer closing now id owner attempt_id s r keyed found h =
    let missed =
      λ (p : Row → Bool) (f : Row → Row)
          (holds : (y : Row) → p y ≡ true → held_by id owner attempt_id y ≡ true).
        update_row-missed answer p f s
          (not_held id owner attempt_id p s.subjobs r holds keyed found h) in
    (
      λ until.
          missed (may_beat id owner attempt_id s) (beat_row now until) (λ y q. ground (arith, q)),
      λ temp_path path sha256.
          missed (may_write id owner attempt_id s now) (write_row now temp_path path sha256)
            (λ y q. ground (arith, q)),
      guard-Refused (lacks_holder id owner attempt_id) s missing_holder _ (
          missed (may_finish id owner attempt_id s now) (succeed_row now)
            (λ y q. ground (arith, q))),
      λ error_code error_message.
          let (code, message) = normalize_failure error_code error_message in
          guard-Refused (lacks_holder id owner attempt_id) s missing_holder _ (
            then_fail_parent-Refused closing now id code message s _ (
              missed (may_finish id owner attempt_id s now) (failed_row now code message)
                (λ y q. ground (arith, q)))),
      λ error_code error_message.
          let (code, message) = normalize_failure error_code error_message in
          guard-Refused (lacks_holder id owner attempt_id) s missing_holder _ (
            then_fail_parent-Refused closing now id code message s _ (
              missed (may_give_up id owner attempt_id s now) (given_up_row now code message)
                (λ y q. ground (arith, q)))),
      λ store p pending path sha256.
          missed
            (may_validate store (record p { subjob_id = id }) pending owner attempt_id path sha256 s
              now)
            (validate_row now) (λ y q. ground (arith, q)),
    )
