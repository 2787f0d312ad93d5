-- ===== src/Leases/Finals.antt =====
-- Statuses that end a subjob are kept, and the number of moves of a row is bounded.
use mathlib.Core.Path.{subst}
use codeintel.Base.{
  ◌≡◌, ◌≢◌, refl, sym, ap, ◌∙◌, true, false, some, List, ℕ, suc, ◌+◌, ◌-◌, ◌*◌, ◌≤◌, arith, Text,
  if◌then◌else◌,
}
use codeintel.Base.Int.{ℤ, pos, ltb_ℤ, pos_part}
use codeintel.Leases.Validation.{validate_row}
use codeintel.Leases.{Row, Store, in_flight}
use codeintel.Leases.Claims.{claim_row, beat_row, write_row, succeed_row}
use codeintel.Leases.Failures.{fail_row, cancel_row}
use codeintel.Leases.Requeues.{requeue_row}
use codeintel.Leases.Reconcile.{skip_row}
use codeintel.Leases.Steps.{
  Step, claims, beats, writes, validates, succeeds, fails, requeues, cancels, drops, Reach, here,
  next,
}
use codeintel.Leases.Keys.{IsKeyed}
use codeintel.Leases.Calls.{Call, run_all, run_all-Moves}
use codeintel.Leases.Soundness.{is_final}
use codeintel.Leases.Rows.{row_of, row_of-Moves}

Step-not-final : {r u : Row} → Step r u → is_final r.status ≡ false
Step-not-final (claims r now owner attempt_id until h k) = ground arith
Step-not-final (beats r now until h) = ground arith
Step-not-final (writes r now temp_path path sha256 h) = ground arith
Step-not-final (validates r now h) = ground arith
Step-not-final (succeeds r now h) = ground arith
Step-not-final (fails r now status code message h k) = ground arith
Step-not-final (requeues r skip s now h k) = ground arith
Step-not-final (cancels r now message h) = ground arith
Step-not-final (drops r now h) = ground arith

Reach-final : {r u : Row} → Reach r u → is_final r.status ≡ true → u ≡ r
Reach-final here h = refl
Reach-final {r} (next c st) h = absurd (
    subst (λ (z : Row). is_final z.status ≢ false) (sym (Reach-final c h)) (λ q. cc (h, q))
      (Step-not-final st))

-- If the ids of the subjobs are unique, the row of a subjob that succeeded, failed, was canceled or
-- was skipped stays as it is in every column, whatever calls follow.
pub final_row_kept :
    (id : Text) (cs : List Call) (s : Store) (r : Row)
    → IsKeyed s.subjobs
    → row_of id s.subjobs ≡ some r
    → is_final r.status ≡ true
    → row_of id (run_all cs s).subjobs ≡ some r
final_row_kept id cs s r keyed found h =
    let (u, after, steps) =
      row_of-Moves id s.subjobs (run_all cs s).subjobs r (run_all-Moves cs s keyed) found in
    after ∙ ap some (Reach-final steps h)

-- How many more moves a row can make.
abbrev pub rank : Row → ℕ
rank r =
    if is_final r.status
    then 0
    else (2 * (pos_part r.input.max_attempts - r.attempt) + (if in_flight r.status then 2 else 1))

-- The steps of a row but for heartbeats, written artifacts and their validation.
unfoldable pub moves_of : {r u : Row} → Reach r u → ℕ
moves_of here = 0
moves_of (next c (beats r now until h)) = moves_of c
moves_of (next c (writes r now temp_path path sha256 h)) = moves_of c
moves_of (next c (validates r now h)) = moves_of c
moves_of (next c _) = suc (moves_of c)

claim_rank : (n : ℕ) (m : ℤ) → ltb_ℤ (pos n) m ≡ true → suc (suc n) ≤ pos_part m + 1
claim_rank n m h = ground arith

rank_falls : {r u : Row} (st : Step r u) → rank u + moves_of (next here st) ≤ rank r
unfolding moves_of claim_row beat_row write_row validate_row succeed_row fail_row requeue_row
    cancel_row skip_row
rank_falls (claims r now owner attempt_id until h k) =
    let q = claim_rank r.attempt r.input.max_attempts k in ground (arith, q, h)
rank_falls (beats r now until h) = ground arith
rank_falls (writes r now temp_path path sha256 h) = ground arith
rank_falls (validates r now h) = ground arith
rank_falls (succeeds r now h) = ground arith
rank_falls (fails r now status code message h k) = ground arith
rank_falls (requeues r skip s now h k) = ground arith
rank_falls (cancels r now message h) = ground arith
rank_falls (drops r now h) = ground arith

moves_of-next :
    {r t u : Row} (c : Reach r t) (st : Step t u)
    → moves_of (next c st) ≡ moves_of c + moves_of (next here st)
unfolding moves_of
moves_of-next c (claims r now owner attempt_id until h k) = omega arith
moves_of-next c (beats r now until h) = omega arith
moves_of-next c (writes r now temp_path path sha256 h) = omega arith
moves_of-next c (validates r now h) = omega arith
moves_of-next c (succeeds r now h) = omega arith
moves_of-next c (fails r now status code message h k) = omega arith
moves_of-next c (requeues r skip s now h k) = omega arith
moves_of-next c (cancels r now message h) = omega arith
moves_of-next c (drops r now h) = omega arith

moves-rank : {r u : Row} (c : Reach r u) → rank u + moves_of c ≤ rank r
unfolding moves_of
moves-rank here = omega arith
moves-rank (next c st) = omega (arith, moves-rank c, rank_falls st, moves_of-next c st)

-- If the ids of the subjobs are unique, a history takes the row of a subjob to its next state by
-- steps of which, but for heartbeats, written artifacts and their validation, at most twice as many
-- as attempts are left, and two more, are made.
pub row_settles :
    (id : Text) (cs : List Call) (s : Store) (r : Row)
    → IsKeyed s.subjobs
    → row_of id s.subjobs ≡ some r
    → (u : Row) × (row_of id (run_all cs s).subjobs ≡ some u)
      × (c : Reach r u) × (moves_of c ≤ 2 * (pos_part r.input.max_attempts - r.attempt) + 2)
row_settles id cs s r keyed found =
    let (u, after, steps) =
      row_of-Moves id s.subjobs (run_all cs s).subjobs r (run_all-Moves cs s keyed) found in
    let m = moves-rank steps in (u, after, steps, ground (arith, m))
