-- ===== src/Planner/Persistence.antt =====
-- What is in the store after a plan was persisted.
use mathlib.Core.Path.{ap₂, subst}
use codeintel.Base.{
  ◌≡◌, sym, ap, ◌∙◌, inl, inr, true, Option, none, some, List, [], ◌∷◌, All, Text, Option-cases,
  Result-cases, ok-injective, ok,
}
use codeintel.Subjobs.{CreateInput, status_queued}
use codeintel.Subjobs.Table.{Database, StoreError, SubjobRow, find_id, same_row, upsert_queued}
use codeintel.Subjobs.Upserts.{Keyed, upsert-Keyed, upsert_keeps_rows, upsert_found}
use codeintel.Planner.{Input}
use codeintel.Planner.Build.{build, write_subjobs, plan_and_persist}

-- The store has a row under the subjob's id, with the subjob's scope.
pub Stored : Database → CreateInput → Type 0
Stored db i = (r : SubjobRow) × (find_id i.id db.rows ≡ some r) × (same_row r.input i ≡ true)

queued-found :
    (db : Database) (i : CreateInput)
    → (upsert_queued db i).1 ≡ none
    → Stored (upsert_queued db i).0 i
unfolding upsert_queued Stored
queued-found db i h = upsert_found db i status_queued [] [] h

queued-keeps :
    (db : Database) (i : CreateInput) (id : Text) (r : SubjobRow)
    → find_id id db.rows ≡ some r
    → find_id id (upsert_queued db i).0.rows ≡ some r
unfolding upsert_queued
queued-keeps db i id r h = upsert_keeps_rows db i status_queued [] [] id r h

queued-Keyed : (db : Database) (i : CreateInput) → Keyed db.rows → Keyed (upsert_queued db i).0.rows
unfolding upsert_queued
queued-Keyed db i k = upsert-Keyed db i status_queued [] [] k

module _ {ℓ ε} {S : Type ℓ} {E : Type ε} (upsert : S → CreateInput → S × Option E) where
  write-go :
      (i : CreateInput) (is : List CreateInput) (s : S)
      → (upsert s i).1 ≡ none
      → write_subjobs upsert (i ∷ is) s ≡ write_subjobs upsert is (upsert s i).0
  unfolding write_subjobs
  write-go i is s h = rw (write_subjobs, h)

  write-stop :
      (i : CreateInput) (is : List CreateInput) (s : S) (e : E)
      → (upsert s i).1 ≡ some e
      → write_subjobs upsert (i ∷ is) s ≡ ((upsert s i).0, some e)
  unfolding write_subjobs
  write-stop i is s e h = rw (write_subjobs, h)

write-keeps :
    (is : List CreateInput) (db : Database) (id : Text) (r : SubjobRow)
    → find_id id db.rows ≡ some r
    → find_id id (write_subjobs upsert_queued is db).0.rows ≡ some r
unfolding write_subjobs
write-keeps [] db id r h = h
write-keeps (i ∷ is) db id r h = elim (Option-cases (upsert_queued db i).1) [
  | inl e ↦
      rw (write-go upsert_queued i is db e)
        (write-keeps is (upsert_queued db i).0 id r (queued-keeps db i id r h))
  | inr (f, e) ↦ rw (write-stop upsert_queued i is db f e) (queued-keeps db i id r h)
]

write-Keyed :
    (is : List CreateInput) (db : Database)
    → Keyed db.rows
    → Keyed (write_subjobs upsert_queued is db).0.rows
unfolding write_subjobs
write-Keyed [] db k = k
write-Keyed (i ∷ is) db k = elim (Option-cases (upsert_queued db i).1) [
  | inl e ↦
      rw (write-go upsert_queued i is db e)
        (write-Keyed is (upsert_queued db i).0 (queued-Keyed db i k))
  | inr (f, e) ↦ rw (write-stop upsert_queued i is db f e) (queued-Keyed db i k)
]

write-Stored :
    (is : List CreateInput) (db : Database)
    → (write_subjobs upsert_queued is db).1 ≡ none
    → All (Stored (write_subjobs upsert_queued is db).0) is
unfolding write_subjobs Stored
write-Stored [] db h = tt
write-Stored (i ∷ is) db h = elim (Option-cases (upsert_queued db i).1) [
  | inr (f, e) ↦ cc (rw (write-stop upsert_queued i is db f e) at h)
  | inl e ↦
      let (r, found, same) = queued-found db i e in
      subst (λ (z : Database × Option StoreError). All (Stored z.0) (i ∷ is))
        (sym (write-go upsert_queued i is db e))
        (
          (r, write-keeps is (upsert_queued db i).0 i.id r found, same),
          write-Stored is (upsert_queued db i).0 (rw (write-go upsert_queued i is db e) at h),
        )
]

persisted-parts :
    (sha256 : Text → Text) (db after : Database) (input : Input) (out : List CreateInput)
    → plan_and_persist sha256 (some upsert_queued) db input ≡ (after, ok out)
    → (build sha256 input ≡ ok out) × (write_subjobs upsert_queued out db ≡ (after, none))
unfolding plan_and_persist
persisted-parts sha256 db after input out h = elim (Result-cases (build sha256 input)) [
  | inr (f, e) ↦ cc (rw (plan_and_persist, e) at h)
  | inl (is, e) ↦ elim (Option-cases (write_subjobs upsert_queued is db).1) [
    | inr (f, w) ↦ cc (rw (plan_and_persist, e, w) at h)
    | inl w ↦
        let q : ((write_subjobs upsert_queued is db).0, ok is) ≡ (after, ok out) =
          rw (plan_and_persist, e, w) at h in
        let same = ok-injective (ap (λ z. z.1) q) in
        (
          e ∙ ap ok same,
          subst (λ z. write_subjobs upsert_queued z db ≡ (after, none)) same
              (ap₂ (λ x y. (x, y)) (ap (λ z. z.0) q) w),
        )
  ]
]

-- A plan that was persisted is the one that is built. Each of its subjobs has a row in the store
-- under its id and with its scope, rows that were there stay as they were, and no two rows share
-- an id or a scope if none did.
pub persisted_plan :
    (sha256 : Text → Text) (db after : Database) (input : Input) (out : List CreateInput)
    → plan_and_persist sha256 (some upsert_queued) db input ≡ (after, ok out)
    → (build sha256 input ≡ ok out)
      × All (Stored after) out
      × ((id : Text) (r : SubjobRow) → find_id id db.rows ≡ some r → find_id id after.rows ≡ some r)
      × (Keyed db.rows → Keyed after.rows)
persisted_plan sha256 db after input out h =
    let (made, written) = persisted-parts sha256 db after input out h in
    let there = ap (λ (z : Database × Option StoreError). z.0) written in
    (
      made,
      subst (λ z. All (Stored z) out) there (write-Stored out db (ap (λ z. z.1) written)),
      λ id r k. ap (λ (z : Database). find_id id z.rows) (sym there) ∙ write-keeps out db id r k,
      λ k. subst (λ (z : Database). Keyed z.rows) there (write-Keyed out db k),
    )
