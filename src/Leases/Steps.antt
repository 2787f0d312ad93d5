-- ===== src/Leases/Steps.antt =====
-- What a statement of the store may do to one row, as a relation, and to a table of rows.
use codeintel.Base.{
  ◌≡◌, inl, inr, Bool, true, false, ◌||◌, List, [], ◌∷◌, ℕ, Text, Bool-cases, update, All,
}
use codeintel.Leases.{
  Status, failed, retrying, canceled, skipped, Row, Store, in_flight, is_waiting, is_claimed,
  is_retrying, has_attempts,
}
use codeintel.Leases.Claims.{claim_row, beat_row, is_writable, write_row, succeed_row}
use codeintel.Leases.Validation.{is_under_validation, validate_row}
use codeintel.Leases.Failures.{fail_row, cancel_row}
use codeintel.Leases.Requeues.{requeue_status, requeue_row, parent_job}
use codeintel.Leases.Reconcile.{skip_row}

-- The statuses in which an attempt can end: back to the queue if another is left, or for good.
abbrev pub may_end : Row → Status → Bool
may_end r retrying = has_attempts r
may_end r failed = true
may_end r canceled = true
may_end r skipped = true
may_end r _ = false

pub data Step : Row → Row → Type 0 where
  claims :
      (r : Row) (now : ℕ) (owner attempt_id : Text) (until : ℕ)
      → (is_waiting r.status || is_claimed r.status) ≡ true
      → has_attempts r ≡ true
      → Step r (claim_row now owner attempt_id until r)
  beats : (r : Row) (now until : ℕ) → in_flight r.status ≡ true → Step r (beat_row now until r)
  writes :
      (r : Row) (now : ℕ) (temp_path path sha256 : Text)
      → is_writable r.status ≡ true
      → Step r (write_row now temp_path path sha256 r)
  validates :
      (r : Row) (now : ℕ) → is_under_validation r.status ≡ true → Step r (validate_row now r)
  succeeds : (r : Row) (now : ℕ) → in_flight r.status ≡ true → Step r (succeed_row now r)
  fails :
      (r : Row) (now : ℕ) (status : Status) (code message : Text)
      → in_flight r.status ≡ true
      → may_end r status ≡ true
      → Step r (fail_row now status code message r)
  requeues :
      (r : Row) (skips : Text → Bool) (s : Store) (now : ℕ)
      → in_flight r.status ≡ true
      → may_end r (requeue_status skips (parent_job s r) r) ≡ true
      → Step r (requeue_row skips s now r)
  cancels :
      (r : Row) (now : ℕ) (message : Text)
      → is_waiting r.status ≡ true
      → Step r (cancel_row now message r)
  drops : (r : Row) (now : ℕ) → is_retrying r.status ≡ true → Step r (skip_row now r)

-- Any number of steps.
pub data Reach (r : Row) : Row → Type 0 where
  here : Reach r r
  next : {t u : Row} → Reach r t → Step t u → Reach r u

pub Reach-trans : {r t u : Row} → Reach r t → Reach t u → Reach r u
Reach-trans a here = a
Reach-trans a (next b st) = next (Reach-trans a b) st

-- The same rows, each some steps on.
unfoldable pub Moves : List Row → List Row → Type 0
Moves [] [] = Unit
Moves (x ∷ xs) (y ∷ ys) = Reach x y × Moves xs ys
Moves [] (_ ∷ _) = ⊥
Moves (_ ∷ _) [] = ⊥

pub Moves-refl : (xs : List Row) → Moves xs xs
unfolding Moves
Moves-refl [] = tt
Moves-refl (x ∷ xs) = (here, Moves-refl xs)

pub Moves-trans : (xs ys zs : List Row) → Moves xs ys → Moves ys zs → Moves xs zs
unfolding Moves
Moves-trans [] [] [] h k = tt
Moves-trans [] [] (z ∷ zs) h k = elim k [ ]
Moves-trans [] (y ∷ ys) zs h k = elim h [ ]
Moves-trans (x ∷ xs) [] zs h k = elim h [ ]
Moves-trans (x ∷ xs) (y ∷ ys) [] h k = elim k [ ]
Moves-trans (x ∷ xs) (y ∷ ys) (z ∷ zs) h k = (Reach-trans h.0 k.0, Moves-trans xs ys zs h.1 k.1)

pub Moves-update :
    (p : Row → Bool) (f : Row → Row) (xs : List Row)
    → All (λ r. p r ≡ true → Step r (f r)) xs
    → Moves xs (update p f xs)
unfolding Moves update
Moves-update p f [] step = tt
Moves-update p f (x ∷ xs) step = (
  elim (Bool-cases (p x)) [ inl e ↦ rw e (next here (step.0 e)) | inr e ↦ rw e here ],
  Moves-update p f xs step.1,
)
