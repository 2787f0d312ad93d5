-- ===== src/Leases/Soundness.antt =====
-- A row's columns agree with its status, whatever calls the store has answered.
use codeintel.Base.{◌≡◌, refl, Bool, true, false, none, List, [], ◌∷◌, ℕ, suc, All, arith, is_some}
use codeintel.Base.Int.{ℤ, pos, leb_ℤ, ltb_ℤ}
use codeintel.Leases.Validation.{validate_row}
use codeintel.Leases.{
  Status, succeeded, failed, canceled, skipped, Row, Store, in_flight, is_waiting, has_attempts,
}
use codeintel.Leases.Claims.{claim_row, beat_row, write_row, succeed_row}
use codeintel.Leases.Failures.{fail_row, cancel_row, completed_unless_retrying}
use codeintel.Leases.Requeues.{requeue_row, requeue_status, parent_job}
use codeintel.Leases.Reconcile.{skip_row}
use codeintel.Leases.Steps.{
  may_end, Step, claims, beats, writes, validates, succeeds, fails, requeues, cancels, drops, Reach,
  here, next, Moves,
}
use codeintel.Leases.Keys.{IsKeyed, Moves-IsKeyed}
use codeintel.Leases.Calls.{Call, run_all, run_all-Moves}

abbrev pub is_final : Status → Bool
is_final succeeded = true
is_final failed = true
is_final canceled = true
is_final skipped = true
is_final _ = false

-- At most the allowed attempts; a lease with its owner exactly while in flight, and then an attempt
-- id; an attempt left while waiting; a time of completion exactly at the end.
unfoldable pub IsSound : Row → Type 0
IsSound r =
    (leb_ℤ (pos r.attempt) r.input.max_attempts ≡ true)
    × (is_some r.lease_owner ≡ in_flight r.status)
    × (is_some r.lease_expires_at ≡ in_flight r.status)
    × (in_flight r.status ≡ true → is_some r.attempt_id ≡ true)
    × (is_waiting r.status ≡ true → has_attempts r ≡ true)
    × (is_some r.completed_at ≡ is_final r.status)

attempt_left : (n : ℕ) (m : ℤ) → ltb_ℤ (pos n) m ≡ true → leb_ℤ (pos (suc n)) m ≡ true
attempt_left n m h = ground arith

-- A row whose attempt ended, whichever columns are reset beside its lease.
ended-IsSound :
    (r u : Row) (status : Status) (now : ℕ)
    → in_flight r.status ≡ true
    → may_end r status ≡ true
    → u ≡ record r {
      status = status;
      lease_owner = none;
      attempt_id = none;
      lease_expires_at = none;
      heartbeat_at = none;
      completed_at = completed_unless_retrying now status;
      updated_at = now;
    }
    → IsSound r
    → IsSound u
unfolding IsSound
ended-IsSound r u status now h k e i = rw e (ground arith)

Step-IsSound : {r u : Row} → Step r u → IsSound r → IsSound u
unfolding IsSound claim_row beat_row write_row validate_row succeed_row fail_row requeue_row
    cancel_row skip_row
Step-IsSound (claims r now owner attempt_id until h k) i = (
  attempt_left r.attempt r.input.max_attempts k,
  refl,
  refl,
  λ _. refl,
  λ e. cc e,
  ground (arith, h, i),
)
Step-IsSound (beats r now until h) i = ground arith
Step-IsSound (writes r now temp_path path sha256 h) i = ground arith
Step-IsSound (validates r now h) i = ground arith
Step-IsSound (succeeds r now h) i = ground arith
Step-IsSound (fails r now status code message h k) i = ground arith
Step-IsSound (requeues r skip s now h k) i =
    ended-IsSound r _ (requeue_status skip (parent_job s r) r) now h k refl i
Step-IsSound (cancels r now message h) i = ground arith
Step-IsSound (drops r now h) i = ground arith

pub Reach-IsSound : {r u : Row} → Reach r u → IsSound r → IsSound u
Reach-IsSound here i = i
Reach-IsSound (next c st) i = Step-IsSound st (Reach-IsSound c i)

pub Moves-IsSound : (xs ys : List Row) → Moves xs ys → All IsSound xs → All IsSound ys
unfolding Moves
Moves-IsSound [] [] m h = tt
Moves-IsSound [] (y ∷ ys) m h = elim m [ ]
Moves-IsSound (x ∷ xs) [] m h = elim m [ ]
Moves-IsSound (x ∷ xs) (y ∷ ys) m h = (Reach-IsSound m.0 h.0, Moves-IsSound xs ys m.1 h.1)

-- If the ids of the subjobs are unique and every row is sound, they are so after any calls, in any
-- order, at any times and whatever the database answers: the attempts stay within the limit, a lease
-- with its owner and attempt id is held exactly in flight, a waiting row has an attempt left, and the
-- time of completion is set exactly at the end.
pub run_all-IsSound :
    (cs : List Call) (s : Store)
    → IsKeyed s.subjobs
    → All IsSound s.subjobs
    → IsKeyed (run_all cs s).subjobs × All IsSound (run_all cs s).subjobs
run_all-IsSound cs s k h =
    let m = run_all-Moves cs s k in
    (Moves-IsKeyed s.subjobs (run_all cs s).subjobs m k, Moves-IsSound s.subjobs _ m h)
