-- ===== src/Subjobs/Upserts.antt =====
-- Upserts keep the table's keys unique and its rows, and a second one changes nothing.
use mathlib.Core.Path.{subst}
use codeintel.Base.{
  ◌≡◌, refl, sym, ap, ◌∙◌, inl, inr, true, false, not, ◌&&◌, ◌||◌, Option, none, some, List, [],
  ◌∷◌, ◌++◌, is_some, arith, Bool-cases, Option-cases, Text, text_eq, text_eq_self,
}
use codeintel.Base.Int.{eqb_ℤ_iff}
use codeintel.Subjobs.{CreateInput, is_valid_input, status_queued, status_skipped}
use codeintel.Subjobs.Table.{
  SubjobRow, Database, StoreError, same_scope, same_row, find_id, has_scope, new_row, insert_row,
  upsert_with_status, coalesce,
}

-- No two rows share an id or a scope.
unfoldable pub Keyed : List SubjobRow → Type 0
Keyed [] = Unit
Keyed (r ∷ rest) =
    (is_some (find_id r.input.id rest) ≡ false) × (has_scope r.input rest ≡ false) × Keyed rest

pub text_eq-sym : (a b : Text) → text_eq a b ≡ text_eq b a
unfolding text_eq
text_eq-sym [] [] = refl
text_eq-sym [] (y ∷ ys) = refl
text_eq-sym (x ∷ xs) [] = refl
text_eq-sym (x ∷ xs) (y ∷ ys) = ground (arith, text_eq-sym xs ys)

same_scope-sym : (a b : CreateInput) → same_scope a b ≡ same_scope b a
unfolding same_scope
same_scope-sym a b = rw (
  text_eq-sym a.repo_indexing_job_id b.repo_indexing_job_id,
  text_eq-sym (coalesce a.workspace_id) (coalesce b.workspace_id),
  text_eq-sym a.branch b.branch,
  text_eq-sym a.revision b.revision,
  text_eq-sym a.commit_hash b.commit_hash,
  text_eq-sym a.layer b.layer,
  text_eq-sym a.worker_class b.worker_class,
  text_eq-sym (coalesce a.language) (coalesce b.language),
  text_eq-sym (coalesce a.project_root) (coalesce b.project_root),
  text_eq-sym (coalesce a.indexer) (coalesce b.indexer),
)

same_row_self : (a : CreateInput) → same_row a a ≡ true
unfolding same_row same_scope
same_row_self a = rw (
  text_eq_self a.repo_indexing_job_id,
  text_eq_self (coalesce a.workspace_id),
  text_eq_self a.branch,
  text_eq_self a.revision,
  text_eq_self a.commit_hash,
  text_eq_self a.layer,
  text_eq_self a.worker_class,
  text_eq_self (coalesce a.language),
  text_eq_self (coalesce a.project_root),
  text_eq_self (coalesce a.indexer),
  text_eq_self a.queue_name,
  (eqb_ℤ_iff a.org_id a.org_id).1 refl,
  (eqb_ℤ_iff a.repo_id a.repo_id).1 refl,
)

find_id-append :
    (id : Text) (rows : List SubjobRow) (r : SubjobRow)
    → is_some (find_id id (rows ++ r ∷ [])) ≡ (is_some (find_id id rows) || text_eq r.input.id id)
unfolding find_id
find_id-append id [] r = ground arith
find_id-append id (x ∷ xs) r = ground (arith, find_id-append id xs r)

has_scope-append :
    (input : CreateInput) (rows : List SubjobRow) (r : SubjobRow)
    → has_scope input (rows ++ r ∷ []) ≡ (has_scope input rows || same_scope r.input input)
unfolding has_scope
has_scope-append input [] r = ground arith
has_scope-append input (x ∷ xs) r = ground (arith, has_scope-append input xs r)

Keyed-append :
    (rows : List SubjobRow) (r : SubjobRow)
    → Keyed rows
    → is_some (find_id r.input.id rows) ≡ false
    → has_scope r.input rows ≡ false
    → Keyed (rows ++ r ∷ [])
unfolding Keyed find_id has_scope
Keyed-append [] r k i s = (refl, refl, tt)
Keyed-append (x ∷ xs) r k i s = (
  find_id-append x.input.id xs r ∙ ground (arith, k.0, i, text_eq-sym r.input.id x.input.id),
  has_scope-append x.input xs r ∙ ground (arith, k.1, s, same_scope-sym r.input x.input),
  Keyed-append xs r k.2 (ground (arith, i)) (ground (arith, s)),
)

insert_row-Keyed :
    (db : Database) (row : SubjobRow) → Keyed db.rows → Keyed (insert_row db row).0.rows
unfolding insert_row
insert_row-Keyed db row k = ground (arith, k, Keyed-append db.rows row k)

-- Every upsert keeps the ids and the scopes of the table unique.
pub upsert-Keyed :
    (db : Database) (input : CreateInput) (status code message : Text)
    → Keyed db.rows
    → Keyed (upsert_with_status db input status code message).0.rows
unfolding upsert_with_status
upsert-Keyed db input status code message k =
    ground (arith, k, insert_row-Keyed db (new_row input status code message) k)

find_id-front :
    (id : Text) (rows : List SubjobRow) (r found : SubjobRow)
    → find_id id rows ≡ some found
    → find_id id (rows ++ r ∷ []) ≡ some found
unfolding find_id
find_id-front id [] r found h = cc
find_id-front id (x ∷ xs) r found h = ground (arith, h, find_id-front id xs r found)

find_id-last :
    (rows : List SubjobRow) (r : SubjobRow)
    → find_id r.input.id rows ≡ none
    → find_id r.input.id (rows ++ r ∷ []) ≡ some r
unfolding find_id
find_id-last [] r h = rw (text_eq_self r.input.id)
find_id-last (x ∷ xs) r h = ground (arith, h, find_id-last xs r)

-- A statement that succeeded left the row's id with a row of the same scope.
insert_row_found :
    (db : Database) (row : SubjobRow)
    → (insert_row db row).1 ≡ none
    → let after = (insert_row db row).0 in
      (after.reachable ≡ true)
      × (after.ready row.input ≡ true)
      × ((r : SubjobRow) × (find_id row.input.id after.rows ≡ some r)
          × (same_row r.input row.input ≡ true))
unfolding insert_row
insert_row_found db row h = elim (Option-cases (find_id row.input.id db.rows)) [
  | inr (r, e) ↦
      (ground (arith, h, e), ground (arith, h, e), (r, ground (arith, h, e), ground (arith, h, e)))
  | inl e ↦ (
    ground (arith, h, e),
    ground (arith, h, e),
    (row, ground (arith, h, e, find_id-last db.rows row e), same_row_self row.input),
  )
]

insert_row_again :
    (db : Database) (row : SubjobRow)
    → (insert_row db row).1 ≡ none
    → insert_row (insert_row db row).0 row ≡ ((insert_row db row).0, none)
unfolding insert_row
insert_row_again db row h =
    let (up, ready, (r, found, same)) = insert_row_found db row h in
    stays (insert_row db row).0 up ready r found same
  where
    stays :
        (after : Database)
        → after.reachable ≡ true
        → after.ready row.input ≡ true
        → (r : SubjobRow) → find_id row.input.id after.rows ≡ some r
        → same_row r.input row.input ≡ true
        → insert_row after row ≡ (after, none)
    stays after up ready r found same = ground arith

accepted_upsert :
    (db : Database) (input : CreateInput) (status code message : Text)
    → (upsert_with_status db input status code message).1 ≡ none
    → (d : Database)
    → upsert_with_status d input status code message
      ≡ insert_row d (new_row input status code message)
unfolding upsert_with_status
accepted_upsert db input status code message h d = elim (Bool-cases (is_valid_input input)) [
  | inr e ↦ ground (arith, h, e)
  | inl e ↦
      elim (Bool-cases
        (not (text_eq status status_skipped) && not (text_eq status status_queued))) [
          | inl k ↦ ground (arith, h, e, k)
          | inr k ↦ rw (e, k)
        ]
]

-- An upsert that succeeded can be repeated: it succeeds again and changes nothing.
pub upsert_again :
    (db : Database) (input : CreateInput) (status code message : Text)
    → (upsert_with_status db input status code message).1 ≡ none
    → let after = (upsert_with_status db input status code message).0 in
      upsert_with_status after input status code message ≡ (after, none)
upsert_again db input status code message h =
    let row = new_row input status code message in
    let on = accepted_upsert db input status code message h in
    subst
      (λ (z : Database × Option StoreError).
        upsert_with_status z.0 input status code message ≡ (z.0, none))
      (sym (on db))
      (on (insert_row db row).0 ∙ insert_row_again db row (sym (ap (λ z. z.1) (on db)) ∙ h))

-- No upsert removes or changes a row.
pub upsert_keeps_rows :
    (db : Database) (input : CreateInput) (status code message id : Text) (r : SubjobRow)
    → find_id id db.rows ≡ some r
    → find_id id (upsert_with_status db input status code message).0.rows ≡ some r
unfolding upsert_with_status insert_row
upsert_keeps_rows db input status code message id r h =
    ground (arith, h, find_id-front id db.rows (new_row input status code message) r h)

-- An upsert that succeeded left the id with a row of the given scope.
pub upsert_found :
    (db : Database) (input : CreateInput) (status code message : Text)
    → (upsert_with_status db input status code message).1 ≡ none
    → (r : SubjobRow) × (find_id input.id (upsert_with_status db input status code message).0.rows
        ≡ some r)
      × (same_row r.input input ≡ true)
unfolding new_row same_row same_scope
upsert_found db input status code message h =
    let row = new_row input status code message in
    let e = accepted_upsert db input status code message h db in
    let (up, ready, (r, found, same)) = insert_row_found db row (sym (ap (λ z. z.1) e) ∙ h) in
    (r, ap (λ z. find_id input.id z.0.rows) e ∙ found, same)
