-- ===== src/Dispatch/Counts.antt =====
-- The counts of a dispatch: every row that was looked at is counted once.
use mathlib.Core.Path.{subst}
use codeintel.Base.{
  ◌≡◌, refl, sym, ap, inl, inr, Bool, false, Option, none, List, [], ◌∷◌, ℕ, ◌+◌, ◌≤◌, suc, length,
  arith, Bool-cases, Option-cases, is_some, Result-cases,
}
use codeintel.Base.Int.{ℤ}
use codeintel.Subjobs.{Json}
use codeintel.Dispatch.{
  DispatchableSubjob, DispatchStats, no_stats, Services, DispatchError, is_duplicate, enqueue,
  enqueue_rescue,
}
use codeintel.Dispatch.Loop.{
  dispatch_rows, dispatch_ready, sent, stopped, rescued, queued_twice, rescue_failed,
}

-- What is added to the counts for a number of rows, by an end with or without an error.
pub Counted : DispatchStats → ℕ → DispatchStats → Bool → Type 0
Counted before rows after failed =
    (after.scanned ≡ before.scanned)
    × (after.enqueued + after.duplicates ≤ before.enqueued + before.duplicates + rows)
    × (after.rescued_duplicates + before.duplicates ≤ after.duplicates + before.rescued_duplicates)
    × (failed ≡ false
        → after.enqueued + after.duplicates ≡ before.enqueued + before.duplicates + rows)

Counted-sent :
    (before after : DispatchStats) (rows : ℕ) (failed : Bool)
    → Counted (record before { enqueued = suc before.enqueued }) rows after failed
    → Counted before (suc rows) after failed
unfolding Counted
Counted-sent before after rows failed c =
    (c.0, omega (arith, c.1), omega (arith, c.2), λ f. omega (arith, c.3 f))

Counted-twice :
    (before after : DispatchStats) (rows : ℕ) (failed : Bool)
    → Counted (record before { duplicates = suc before.duplicates }) rows after failed
    → Counted before (suc rows) after failed
unfolding Counted
Counted-twice before after rows failed c =
    (c.0, omega (arith, c.1), omega (arith, c.2), λ f. omega (arith, c.3 f))

Counted-rescued :
    (before after : DispatchStats) (rows : ℕ) (failed : Bool)
    → Counted
        (record before {
          duplicates = suc before.duplicates;
          rescued_duplicates = suc before.rescued_duplicates;
        })
        rows
        after
        failed
    → Counted before (suc rows) after failed
unfolding Counted
Counted-rescued before after rows failed c =
    (c.0, omega (arith, c.1), omega (arith, c.2), λ f. omega (arith, c.3 f))

module _ {σ ε} {S : Type σ} {E : Type ε} (json : Json) (services : Services S E) where
  abbrev Outcome : Type (σ ⊔ ε)
  Outcome = S × DispatchStats × Option (DispatchError E)

  abbrev CountedOutcome : DispatchStats → ℕ → Outcome → Type 0
  CountedOutcome before rows out = Counted before rows out.1 (is_some out.2)

  moved :
      (stats : DispatchStats) (n : ℕ) {a b : Outcome}
      → a ≡ b
      → CountedOutcome stats n b
      → CountedOutcome stats n a
  moved stats n p c = subst (CountedOutcome stats n) (sym p) c

  dispatch_rows-Counted :
      (rows : List DispatchableSubjob) (stats : DispatchStats) (s : S)
      → CountedOutcome stats (length rows) (dispatch_rows json services rows stats s)
  unfolding dispatch_rows Counted
  dispatch_rows-Counted [] stats s = (refl, omega arith, omega arith, λ _. omega arith)
  dispatch_rows-Counted (row ∷ rest) stats s =
      let s1 = (enqueue json services row s).0 in
      let s2 = (enqueue_rescue json services row s1).0 in
      let n = suc (length rest) in
      elim (Option-cases (enqueue json services row s).1) [
        | inl h ↦ moved stats n (sent json services row rest stats s h) (
            let after =
              dispatch_rows json services rest (record stats { enqueued = suc stats.enqueued })
                s1 in
            Counted-sent stats after.1 (length rest) (is_some after.2)
              (dispatch_rows-Counted rest (record stats { enqueued = suc stats.enqueued }) s1))
        | inr (e, h) ↦ elim (Bool-cases (is_duplicate e)) [
          | inr d ↦
              moved stats n (stopped json services row rest stats s e h d)
                (refl, omega arith, omega arith, λ f. cc f)
          | inl d ↦ elim (Option-cases (enqueue_rescue json services row s1).1) [
            | inl k ↦ moved stats n (rescued json services row rest stats s e h d k) (
                let after =
                  dispatch_rows json services rest
                    (record stats {
                      duplicates = suc stats.duplicates;
                      rescued_duplicates = suc stats.rescued_duplicates;
                    })
                    s2 in
                Counted-rescued stats after.1 (length rest) (is_some after.2) (
                  dispatch_rows-Counted rest
                    (record stats {
                      duplicates = suc stats.duplicates;
                      rescued_duplicates = suc stats.rescued_duplicates;
                    })
                    s2))
            | inr (f, k) ↦ elim (Bool-cases (is_duplicate f)) [
              | inl g ↦ moved stats n (queued_twice json services row rest stats s e h d f k g) (
                  let after =
                    dispatch_rows json services rest
                      (record stats { duplicates = suc stats.duplicates }) s2 in
                  Counted-twice stats after.1 (length rest) (is_some after.2) (
                    dispatch_rows-Counted rest (record stats { duplicates = suc stats.duplicates })
                      s2))
              | inr g ↦
                  moved stats n (rescue_failed json services row rest stats s e h d f k g)
                    (refl, omega arith, omega arith, λ q. cc)
            ]
          ]
        ]
      ]

  -- A dispatch counts no more enqueued and duplicate rows than it scanned, and exactly as many if it
  -- ends without an error; no more duplicates are rescued than there are.
  pub dispatch_ready_counts :
      (limit : ℤ) (s : S)
      → let out = dispatch_ready json services limit s in
        (out.1.enqueued + out.1.duplicates ≤ out.1.scanned)
        × (out.1.rescued_duplicates ≤ out.1.duplicates)
        × (out.2 ≡ none → out.1.enqueued + out.1.duplicates ≡ out.1.scanned)
  unfolding dispatch_ready Counted
  dispatch_ready_counts limit s = elim (Result-cases (services.list_dispatchable limit s).1) [
    | inr (e, h) ↦ rw (dispatch_ready, h) (omega arith, omega arith, λ q. cc)
    | inl (rows, h) ↦
        let s1 = (services.list_dispatchable limit s).0 in
        let c = dispatch_rows-Counted rows (record no_stats { scanned = length rows }) s1 in
        rw (dispatch_ready, h)
          (omega (arith, c.0, c.1), omega (arith, c.2), λ q. omega (arith, c.0, c.3 (ap is_some q)))
  ]
