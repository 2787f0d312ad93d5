-- ===== src/Leases/Outcomes.antt =====
-- What the answers of the calls for one row say of it.
use codeintel.Base.{
  ◌≡◌, ◌≢◌, refl, sym, ap, ◌∙◌, inl, inr, Bool, true, false, some, ℕ, All, arith, Text, Result, ok,
  err, ok-injective, if◌then◌else◌, Bool-cases, Option-cases, update, update_none, affected_none,
}
use codeintel.Leases.{Row, Store, LeaseError, Answer, done, refused, lost, respond, update_row}
use codeintel.Leases.Claims.{ClaimScope, in_scope, may_claim, claim_row, claim_scoped}
use codeintel.Leases.Keys.{IsKeyed}
use codeintel.Leases.Rows.{row_of, row_of-id, For, met, not_met, not_found}

-- A statement that no row meets changes nothing, and does not answer that it did.
pub update_row-missed :
    (answer : Answer) (p : Row → Bool) (f : Row → Row) (s : Store)
    → All (λ r. p r ≡ false) s.subjobs
    → ((update_row answer p f s).0 ≡ s) × ((update_row answer p f s).1 ≢ ok true)
unfolding update_row respond
update_row-missed done p f s h = (
  ap (λ rows. record s { subjobs = rows }) (update_none p f s.subjobs h),
  λ q. cc (ok-injective q, affected_none p s.subjobs h),
)
update_row-missed refused p f s h = (refl, λ q. cc q)
update_row-missed lost p f s h =
    (ap (λ rows. record s { subjobs = rows }) (update_none p f s.subjobs h), λ q. cc q)

-- An answer that it did change one.
pub update_row-won :
    (answer : Answer) (p : Row → Bool) (f : Row → Row) (s : Store)
    → (update_row answer p f s).1 ≡ ok true
    → (update_row answer p f s).0 ≡ record s { subjobs = update p f s.subjobs }
unfolding update_row respond
update_row-won done p f s h = refl
update_row-won refused p f s h = cc h
update_row-won lost p f s h = cc h

-- A guard that let the call pass.
pub guard-passed {ℓ} :
    {A : Type ℓ} (bad : Bool) (s : Store) (e : LeaseError) (x : Store × Result LeaseError A) (a : A)
    → (if bad then (s, err e) else x).1 ≡ ok a
    → (if bad then (s, err e) else x) ≡ x
guard-passed true s e x a h = cc h
guard-passed false s e x a h = refl

pub claim_scoped-passed :
    (answer : Answer) (now : ℕ) (scope : ClaimScope) (owner attempt_id : Text) (until : ℕ)
    (s : Store)
    → (claim_scoped answer now scope owner attempt_id until s).1 ≡ ok true
    → claim_scoped answer now scope owner attempt_id until s
      ≡ update_row answer (may_claim scope s now) (claim_row now owner attempt_id until) s
unfolding claim_scoped
claim_scoped-passed answer now scope owner attempt_id until s h = ground arith

pub may_claim-For :
    (scope : ClaimScope) (s : Store) (now : ℕ) → For scope.id (may_claim scope s now)
unfolding may_claim in_scope
may_claim-For scope s now y h = ground arith

-- A claim that answered true met the row of its id, and left it claimed.
pub claim_met :
    (answer : Answer) (now : ℕ) (scope : ClaimScope) (owner attempt_id : Text) (until : ℕ)
    (s : Store)
    → IsKeyed s.subjobs
    → (claim_scoped answer now scope owner attempt_id until s).1 ≡ ok true
    → (r : Row) × (row_of scope.id s.subjobs ≡ some r)
      × (may_claim scope s now r ≡ true)
      × (row_of scope.id (claim_scoped answer now scope owner attempt_id until s).0.subjobs
          ≡ some (claim_row now owner attempt_id until r))
unfolding claim_row
claim_met answer now scope owner attempt_id until s keyed h =
    let p = may_claim scope s now in
    let f = claim_row now owner attempt_id until in
    let passed = claim_scoped-passed answer now scope owner attempt_id until s h in
    let won = sym (ap (λ (x : Store × Result LeaseError Bool). x.1) passed) ∙ h in
    elim (Option-cases (row_of scope.id s.subjobs)) [
      | inl none_found ↦ absurd (
          (update_row-missed answer p f s
              (not_found scope.id p s.subjobs (may_claim-For scope s now) none_found)).1
            won)
      | inr (r, found) ↦ elim (Bool-cases (p r)) [
        | inr miss ↦ absurd (
            (update_row-missed answer p f s
                (not_met scope.id p s.subjobs r (may_claim-For scope s now) keyed found miss)).1
              won)
        | inl hit ↦
            let after =
              met scope.id p f s.subjobs r (may_claim-For scope s now) keyed found hit
                (row_of-id scope.id s.subjobs r found) in
            (
              r,
              found,
              hit,
              ap (λ (x : Store × Result LeaseError Bool). row_of scope.id x.0.subjobs) passed
                  ∙ ap (λ (x : Store). row_of scope.id x.subjobs) (update_row-won answer p f s won)
                  ∙ after.1,
            )
      ]
    ]
