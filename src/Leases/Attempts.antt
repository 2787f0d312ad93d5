-- ===== src/Leases/Attempts.antt =====
-- Attempts only count up, so each is claimed once and their number is bounded.
use mathlib.Core.Path.{subst}
use codeintel.Base.{
  ◌≡◌, ◌≢◌, sym, ap, ◌∙◌, inl, inr, true, false, some, List, [], ◌∷◌, ℕ, suc, ◌+◌, ◌≤◌, arith, Text,
  text_eq, ok, err, if◌then◌else◌, Bool-cases, Result-cases, text_eq_iff,
}
use mathlib.Core.Option.{some-injective}
use codeintel.Base.Int.{ℤ, pos, leb_ℤ, eqb_ℤ}
use codeintel.Subjobs.{CreateInput}
use codeintel.Leases.Validation.{validate_row}
use codeintel.Leases.{Row, Store, Answer}
use codeintel.Leases.Claims.{
  ClaimScope, in_scope, may_claim, claim_row, beat_row, write_row, succeed_row, claim_scoped,
}
use codeintel.Leases.Failures.{fail_row, cancel_row}
use codeintel.Leases.Requeues.{requeue_row}
use codeintel.Leases.Reconcile.{skip_row}
use codeintel.Leases.Steps.{
  Step, claims, beats, writes, validates, succeeds, fails, requeues, cancels, drops, Reach, here,
  next,
}
use codeintel.Leases.Keys.{Reach-input, IsKeyed, Moves-IsKeyed}
use codeintel.Leases.Calls.{
  Call, claim, beat, write, validate, succeed, fail, fail_infrastructure, requeue, rescue,
  reconcile, run, run_all, run-Moves, run_all-Moves,
}
use codeintel.Leases.Soundness.{IsSound, Reach-IsSound}
use codeintel.Leases.Rows.{row_of, row_of-Moves}
use codeintel.Leases.Outcomes.{claim_met}

Step-attempt : {r u : Row} → Step r u → r.attempt ≤ u.attempt
unfolding claim_row beat_row write_row validate_row succeed_row fail_row requeue_row cancel_row
    skip_row
Step-attempt (claims r now owner attempt_id until h k) = omega arith
Step-attempt (beats r now until h) = omega arith
Step-attempt (writes r now temp_path path sha256 h) = omega arith
Step-attempt (validates r now h) = omega arith
Step-attempt (succeeds r now h) = omega arith
Step-attempt (fails r now status code message h k) = omega arith
Step-attempt (requeues r skip s now h k) = omega arith
Step-attempt (cancels r now message h) = omega arith
Step-attempt (drops r now h) = omega arith

pub Reach-attempt : {r u : Row} → Reach r u → r.attempt ≤ u.attempt
Reach-attempt here = omega arith
Reach-attempt (next c st) = omega (arith, Step-attempt st, Reach-attempt c)

may_claim-attempt :
    (scope : ClaimScope) (s : Store) (now : ℕ) (r : Row)
    → may_claim scope s now r ≡ true
    → eqb_ℤ (pos (suc r.attempt)) scope.attempt ≡ true
unfolding may_claim in_scope
may_claim-attempt scope s now r h = ground arith

same_attempt :
    (a b : ℕ) (z : ℤ) → eqb_ℤ (pos (suc a)) z ≡ true → eqb_ℤ (pos (suc b)) z ≡ true → a ≡ b
same_attempt a b z h k = ground arith

-- If the ids of the subjobs are unique, a claim that answered true never answers true again for the
-- same scope, whatever calls come between, at any later time and for any owner.
pub claimed_once :
    (answer : Answer) (now : ℕ) (scope : ClaimScope) (owner attempt_id : Text) (until : ℕ)
    (s : Store) (cs : List Call) (answer' : Answer) (now' : ℕ) (owner' attempt_id' : Text)
    (until' : ℕ)
    → IsKeyed s.subjobs
    → (claim_scoped answer now scope owner attempt_id until s).1 ≡ ok true
    → (claim_scoped answer' now' scope owner' attempt_id' until'
        (run_all cs (claim_scoped answer now scope owner attempt_id until s).0)).1
      ≢ ok true
unfolding run claim_row
claimed_once answer now scope owner attempt_id until s cs answer' now' owner' attempt_id' until'
      keyed h again =
    let (r, found, hit, after) = claim_met answer now scope owner attempt_id until s keyed h in
    let s1 = (claim_scoped answer now scope owner attempt_id until s).0 in
    let keyed1 =
      Moves-IsKeyed s.subjobs s1.subjobs
        (run-Moves (claim answer now scope owner attempt_id until) s keyed) keyed in
    let s2 = run_all cs s1 in
    let m = run_all-Moves cs s1 keyed1 in
    let (t, found1, hit1, after1) =
      claim_met answer' now' scope owner' attempt_id' until' s2
        (Moves-IsKeyed s1.subjobs s2.subjobs m keyed1) again in
    let (u, found2, c) = row_of-Moves scope.id s1.subjobs s2.subjobs _ m after in
    let grown = Reach-attempt c in
    let same : u.attempt ≡ t.attempt =
      ap (λ (z : Row). z.attempt) (some-injective u t (sym found2 ∙ found1)) in
    let old : t.attempt ≡ r.attempt =
      same_attempt t.attempt r.attempt scope.attempt (may_claim-attempt scope s2 now' t hit1)
        (may_claim-attempt scope s now r hit) in
    omega (arith, grown, same, old)

-- A claim of the subjob that answers true.
unfoldable pub grants : Text → Call → Store → ℕ
unfolding claim_scoped
grants id (claim answer now scope owner attempt_id until) s =
    elim (claim_scoped answer now scope owner attempt_id until s).1 [
      | ok true ↦ if text_eq scope.id id then 1 else 0
      | ok false ↦ 0
      | err e ↦ 0
    ]
grants id c s = 0

-- How often a history grants the subjob.
unfoldable pub granted : Text → List Call → Store → ℕ
unfolding grants run
granted id [] s = 0
granted id (c ∷ cs) s = grants id c s + granted id cs (run c s)

moved_attempt :
    (id : Text) (c : Call) (s : Store) (r t : Row)
    → IsKeyed s.subjobs
    → row_of id s.subjobs ≡ some r
    → row_of id (run c s).subjobs ≡ some t
    → r.attempt ≤ t.attempt
moved_attempt id c s r t keyed before after =
    let (u, found, steps) =
      row_of-Moves id s.subjobs (run c s).subjobs r (run-Moves c s keyed) before in
    subst (λ (z : Row). r.attempt ≤ z.attempt) (some-injective u t (sym found ∙ after))
      (Reach-attempt steps)

claim_counts :
    (answer : Answer) (now : ℕ) (scope : ClaimScope) (owner attempt_id : Text) (until : ℕ)
    (s : Store) (id : Text) (r t : Row)
    → IsKeyed s.subjobs
    → (claim_scoped answer now scope owner attempt_id until s).1 ≡ ok true
    → scope.id ≡ id
    → row_of id s.subjobs ≡ some r
    → row_of id (claim_scoped answer now scope owner attempt_id until s).0.subjobs ≡ some t
    → suc r.attempt ≡ t.attempt
unfolding claim_row
claim_counts answer now scope owner attempt_id until s id r t keyed won e before after =
    let (r', found, hit, left) = claim_met answer now scope owner attempt_id until s keyed won in
    let s1 = (claim_scoped answer now scope owner attempt_id until s).0 in
    ap (λ (z : Row). suc z.attempt)
      (some-injective r r' (sym before ∙ ap (λ i. row_of i s.subjobs) (sym e) ∙ found))
    ∙ ap (λ (z : Row). z.attempt)
        (some-injective _ t (sym left ∙ ap (λ i. row_of i s1.subjobs) e ∙ after))

grants-attempt :
    (id : Text) (c : Call) (s : Store) (r t : Row)
    → IsKeyed s.subjobs
    → row_of id s.subjobs ≡ some r
    → row_of id (run c s).subjobs ≡ some t
    → r.attempt + grants id c s ≤ t.attempt
unfolding grants run
grants-attempt id (claim answer now scope owner attempt_id until) s r t keyed before after =
    let m =
      moved_attempt id (claim answer now scope owner attempt_id until) s r t keyed before after in
    elim (Result-cases (claim_scoped answer now scope owner attempt_id until s).1) [
      | inr (e, k) ↦ rw (grants, k) (omega (arith, m))
      | inl (false, k) ↦ rw (grants, k) (omega (arith, m))
      | inl (true, k) ↦ elim (Bool-cases (text_eq scope.id id)) [
        | inr other ↦ rw (grants, k, other) (omega (arith, m))
        | inl same ↦
            let e = (text_eq_iff scope.id id).0 same in
            let n =
              claim_counts answer now scope owner attempt_id until s id r t keyed k e before
                after in
            rw (grants, k, same) (omega (arith, n))
      ]
    ]
grants-attempt id (beat a now d o i u) s r t k p q =
    omega (arith, moved_attempt id (beat a now d o i u) s r t k p q)
grants-attempt id (write a now d o i x y z) s r t k p q =
    omega (arith, moved_attempt id (write a now d o i x y z) s r t k p q)
grants-attempt id (validate a now x p m o i y z) s r t k q w =
    omega (arith, moved_attempt id (validate a now x p m o i y z) s r t k q w)
grants-attempt id (succeed a now d o i) s r t k p q =
    omega (arith, moved_attempt id (succeed a now d o i) s r t k p q)
grants-attempt id (fail a b now d o i x y) s r t k p q =
    omega (arith, moved_attempt id (fail a b now d o i x y) s r t k p q)
grants-attempt id (fail_infrastructure a b now d o i x y) s r t k p q =
    omega (arith, moved_attempt id (fail_infrastructure a b now d o i x y) s r t k p q)
grants-attempt id (requeue a locked clock now limit) s r t k p q =
    omega (arith, moved_attempt id (requeue a locked clock now limit) s r t k p q)
grants-attempt id (rescue a locked prefixes now limit) s r t k p q =
    omega (arith, moved_attempt id (rescue a locked prefixes now limit) s r t k p q)
grants-attempt id (reconcile a locked second now limit) s r t k p q =
    omega (arith, moved_attempt id (reconcile a locked second now limit) s r t k p q)

granted-attempt :
    (id : Text) (cs : List Call) (s : Store) (r t : Row)
    → IsKeyed s.subjobs
    → row_of id s.subjobs ≡ some r
    → row_of id (run_all cs s).subjobs ≡ some t
    → r.attempt + granted id cs s ≤ t.attempt
unfolding granted run_all
granted-attempt id [] s r t keyed before after =
    let e = ap (λ (z : Row). z.attempt) (some-injective r t (sym before ∙ after)) in
    omega (arith, e)
granted-attempt id (c ∷ cs) s r t keyed before after =
    let m = run-Moves c s keyed in
    let (u, found, steps) = row_of-Moves id s.subjobs (run c s).subjobs r m before in
    let now = grants-attempt id c s r u keyed before found in
    let later =
      granted-attempt id cs (run c s) u t (Moves-IsKeyed s.subjobs (run c s).subjobs m keyed) found
        after in
    omega (arith, now, later)

within_limit : (r : Row) → IsSound r → leb_ℤ (pos r.attempt) r.input.max_attempts ≡ true
unfolding IsSound
within_limit r i = i.0

limit_le : (n k a : ℕ) (m : ℤ) → n + k ≤ a → leb_ℤ (pos a) m ≡ true → leb_ℤ (pos (n + k)) m ≡ true
limit_le n k a m h q = ground arith

-- If the ids of the subjobs are unique and its row is sound, the claims of a subjob that answer true
-- over any history of calls, with the attempts that its row had counted before, are at most its
-- allowed attempts, so that its retries end.
pub claims_bounded :
    (id : Text) (cs : List Call) (s : Store) (r : Row)
    → IsKeyed s.subjobs
    → IsSound r
    → row_of id s.subjobs ≡ some r
    → leb_ℤ (pos (r.attempt + granted id cs s)) r.input.max_attempts ≡ true
claims_bounded id cs s r keyed sound before =
    let (t, found, steps) =
      row_of-Moves id s.subjobs (run_all cs s).subjobs r (run_all-Moves cs s keyed) before in
    limit_le r.attempt (granted id cs s) t.attempt r.input.max_attempts
      (granted-attempt id cs s r t keyed before found)
      (subst (λ (z : CreateInput). leb_ℤ (pos t.attempt) z.max_attempts ≡ true) (Reach-input steps)
        (within_limit t (Reach-IsSound steps sound)))
