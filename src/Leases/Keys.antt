-- ===== src/Leases/Keys.antt =====
-- The primary key of the subjobs: a statement that selects rows by the ids of other rows updates
-- just those.
use codeintel.Base.{
  ◌≡◌, refl, ◌∙◌, inl, inr, ◌⊎◌, Bool, true, false, List, [], ◌∷◌, ℕ, zero, suc, All, All-map, keep,
  first, sort_by, All-sort_by, text_eq, contains_string, Bool-cases,
}
use codeintel.Subjobs.Upserts.{text_eq-sym}
use codeintel.Leases.Validation.{validate_row}
use codeintel.Leases.{Row}
use codeintel.Leases.Claims.{claim_row, beat_row, write_row, succeed_row}
use codeintel.Leases.Failures.{fail_row, cancel_row}
use codeintel.Leases.Requeues.{ids_of, requeue_row}
use codeintel.Leases.Reconcile.{skip_row}
use codeintel.Leases.Steps.{
  Step, claims, beats, writes, validates, succeeds, fails, requeues, cancels, drops, Reach, here,
  next, Moves,
}

-- No two rows share an id.
unfoldable pub IsKeyed : List Row → Type 0
IsKeyed [] = Unit
IsKeyed (x ∷ xs) = All (λ (y : Row). text_eq y.input.id x.input.id ≡ false) xs × IsKeyed xs

-- A row is another's self or has another id.
abbrev Other : Row → Row → Type 0
Other r y = (y ≡ r) ⊎ (text_eq y.input.id r.input.id ≡ false)

All-tail :
    (P Q : Row → Row → Type 0) (x : Row) (rows xs : List Row)
    → ((r : Row) → P x r → All (λ y. Q r y) xs → All (λ y. Q r y) (x ∷ xs))
    → All (P x) rows
    → All (λ r. All (λ y. Q r y) xs) rows
    → All (λ r. All (λ y. Q r y) (x ∷ xs)) rows
All-tail P Q x [] xs f h k = tt
All-tail P Q x (r ∷ rest) xs f h k = (f r h.0 k.0, All-tail P Q x rest xs f h.1 k.1)

keyed-Other : (rows : List Row) → IsKeyed rows → All (λ r. All (Other r) rows) rows
unfolding IsKeyed
keyed-Other [] h = tt
keyed-Other (x ∷ xs) h = (
  (inl refl, All-map (λ y. text_eq y.input.id x.input.id ≡ false) (Other x) xs (λ y e. inr e) h.0),
  All-tail (λ x r. text_eq r.input.id x.input.id ≡ false) Other x xs xs
      (λ r e k. (inr (text_eq-sym x.input.id r.input.id ∙ e), k)) h.0 (keyed-Other xs h.1),
)

pub All-first : (P : Row → Type 0) (n : ℕ) (xs : List Row) → All P xs → All P (first n xs)
unfolding first
All-first P zero xs h = tt
All-first P (suc n) [] h = tt
All-first P (suc n) (x ∷ xs) h = (h.0, All-first P n xs h.1)

pub All-keep :
    (P : Row → Type 0) (p : Row → Bool) (xs : List Row)
    → All (λ x. p x ≡ true → P x) xs
    → All P (keep p xs)
All-keep P p [] h = tt
All-keep P p (x ∷ xs) h = elim (Bool-cases (p x)) [
  | inl e ↦ rw e (h.0 e, All-keep P p xs h.1)
  | inr e ↦ rw e (All-keep P p xs h.1)
]

not-contains_string-ids :
    (r : Row) (xs : List Row)
    → All (λ (y : Row). text_eq y.input.id r.input.id ≡ false) xs
    → contains_string (ids_of xs) r.input.id ≡ false
unfolding contains_string
not-contains_string-ids r [] h = refl
not-contains_string-ids r (x ∷ xs) h = rw (h.0, not-contains_string-ids r xs h.1)

-- A row whose id was selected passed the test of the selection.
pub selected_passes :
    (p : Row → Bool) (less : Row → Row → Bool) (n : ℕ) (rows : List Row)
    → IsKeyed rows
    → All
        (λ (r : Row).
          contains_string (ids_of (first n (sort_by less (keep p rows)))) r.input.id ≡ true
          → p r ≡ true)
        rows
selected_passes p less n rows keyed =
    All-map (λ r. All (Other r) rows)
      (λ (r : Row).
        contains_string (ids_of (first n (sort_by less (keep p rows)))) r.input.id ≡ true
        → p r ≡ true)
      rows
      (λ r others found. elim (Bool-cases (p r)) [
        | inl e ↦ e
        | inr e ↦
            let apart = not-contains_string-ids r (first n (sort_by less (keep p rows))) (
              All-first _ n _ (
                All-sort_by less _ _ (
                  All-keep (λ (y : Row). text_eq y.input.id r.input.id ≡ false) p rows
                    (All-map (Other r) (λ y. p y ≡ true → text_eq y.input.id r.input.id ≡ false)
                      rows (λ y o q. elim o [ inl s ↦ cc (s, e, q) | inr d ↦ d ]) others)))) in
            cc (found, apart)
      ])
      (keyed-Other rows keyed)

pub Step-input : {r u : Row} → Step r u → u.input ≡ r.input
unfolding claim_row beat_row write_row validate_row succeed_row fail_row requeue_row cancel_row
    skip_row
Step-input (claims r now owner attempt_id until h k) = refl
Step-input (beats r now until h) = refl
Step-input (writes r now temp_path path sha256 h) = refl
Step-input (validates r now h) = refl
Step-input (succeeds r now h) = refl
Step-input (fails r now status code message h k) = refl
Step-input (requeues r skip s now h k) = refl
Step-input (cancels r now message h) = refl
Step-input (drops r now h) = refl

pub Reach-input : {r u : Row} → Reach r u → u.input ≡ r.input
Reach-input here = refl
Reach-input (next c st) = Step-input st ∙ Reach-input c

All-moved :
    (r u : Row) (xs ys : List Row)
    → u.input ≡ r.input
    → Moves xs ys
    → All (λ (y : Row). text_eq y.input.id r.input.id ≡ false) xs
    → All (λ (y : Row). text_eq y.input.id u.input.id ≡ false) ys
unfolding Moves
All-moved r u [] [] e m h = tt
All-moved r u [] (y ∷ ys) e m h = elim m [ ]
All-moved r u (x ∷ xs) [] e m h = elim m [ ]
All-moved r u (x ∷ xs) (y ∷ ys) e m h = (rw (e, Reach-input m.0) h.0, All-moved r u xs ys e m.1 h.1)

-- The key outlives every step.
pub Moves-IsKeyed : (xs ys : List Row) → Moves xs ys → IsKeyed xs → IsKeyed ys
unfolding Moves IsKeyed
Moves-IsKeyed [] [] m h = tt
Moves-IsKeyed [] (y ∷ ys) m h = elim m [ ]
Moves-IsKeyed (x ∷ xs) [] m h = elim m [ ]
Moves-IsKeyed (x ∷ xs) (y ∷ ys) m h =
    (All-moved x y xs ys (Reach-input m.0) m.1 h.0, Moves-IsKeyed xs ys m.1 h.1)
