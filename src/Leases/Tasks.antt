-- ===== src/Leases/Tasks.antt =====
-- From a row that the dispatcher lists to the claim of the worker that gets its task.
use codeintel.Base.{
  ◌≡◌, refl, ◌∙◌, true, false, Option, none, some, List, [], ◌∷◌, ℕ, suc, All, All-map, All-sort_by,
  arith, Text, text_eq, text_eq_self, is_empty, ok,
}
use codeintel.Base.Int.{ℤ, pos, leb_ℤ, ltb_ℤ, eqb_ℤ_iff, pos_part}
use codeintel.Subjobs.{CreateInput, Payload, is_valid_input, owns_queue, is_blank_ptr}
use codeintel.Subjobs.Table.{coalesce}
use codeintel.Subjobs.Upserts.{text_eq-sym}
use codeintel.Workers.{WorkerClass, by_name}
use codeintel.Dispatch.{payload_of, next_attempt}
use codeintel.Dispatch.Tasks.{scanned_row, valid-class}
use codeintel.Leases.{Row, Store, done, respond, has_attempts, update_row, column_is}
use codeintel.Leases.Claims.{
  ClaimScope, lacks_scope, in_scope, claimable, may_claim, claim_row, claim_scoped,
}
use codeintel.Leases.Listing.{is_dispatchable, dispatchable_rows, is_older}
use codeintel.Leases.Keys.{IsKeyed, All-first, All-keep}
use codeintel.Leases.Rows.{row_of, row_of-first, row_of-later, met}
use codeintel.Leases.Outcomes.{may_claim-For}

-- `toClaimScope` of the workers.
unfoldable pub to_claim_scope : Payload → ClaimScope
to_claim_scope p = record {
  id = p.subjob_id;
  repo_indexing_job_id = p.repo_indexing_job_id;
  org_id = p.org_id;
  workspace_id = p.workspace_id;
  repo_id = p.repo_id;
  branch = p.branch;
  revision = p.revision;
  commit_hash = p.commit_hash;
  layer = p.layer;
  language = p.language;
  project_root = p.project_root;
  indexer = p.indexer;
  worker_class = p.worker_class;
  queue_name = p.queue_name;
  attempt = p.attempt;
}

-- The scope with which the worker claims what was dispatched for a row.
abbrev pub task_scope : Row → WorkerClass → ClaimScope
task_scope r class = to_claim_scope (payload_of (scanned_row r.input (pos r.attempt)) class)

All-zip {ℓ} :
    {A : Type ℓ} (P Q : A → Type 0) (xs : List A) → All P xs → All Q xs → All (λ x. P x × Q x) xs
All-zip P Q [] h k = tt
All-zip P Q (x ∷ xs) h k = ((h.0, k.0), All-zip P Q xs h.1 k.1)

-- Every row is found by its id.
rows_found :
    (rows : List Row) → IsKeyed rows → All (λ (r : Row). row_of r.input.id rows ≡ some r) rows
unfolding IsKeyed
rows_found [] h = tt
rows_found (x ∷ xs) h = (
  row_of-first x.input.id x xs (text_eq_self x.input.id),
  All-map (λ (r : Row). (text_eq r.input.id x.input.id ≡ false) × (row_of r.input.id xs ≡ some r))
      (λ (r : Row). row_of r.input.id (x ∷ xs) ≡ some r) xs
      (λ r k. row_of-later r.input.id x xs (text_eq-sym x.input.id r.input.id ∙ k.0) ∙ k.1)
      (All-zip _ _ xs h.0 (rows_found xs h.1)),
)

-- A listed row is one of the table, and dispatchable.
listed_rows :
    (limit : ℤ) (s : Store)
    → IsKeyed s.subjobs
    → All
        (λ (r : Row). (row_of r.input.id s.subjobs ≡ some r) × (is_dispatchable s r ≡ true))
        (dispatchable_rows limit s)
unfolding dispatchable_rows
listed_rows limit s keyed = All-first _ (pos_part limit) _ (
    All-sort_by is_older _ _ (
      All-keep _ (is_dispatchable s) s.subjobs (
        All-map _
          (λ (r : Row).
            is_dispatchable s r ≡ true
            → (row_of r.input.id s.subjobs ≡ some r) × (is_dispatchable s r ≡ true))
          s.subjobs (λ r k e. (k, e)) (rows_found s.subjobs keyed))))

next_scope_attempt :
    (n : ℕ) (m : ℤ)
    → ltb_ℤ (pos n) m ≡ true
    → leb_ℤ m (pos 2147483647) ≡ true
    → next_attempt (pos n) ≡ pos (suc n)
unfolding next_attempt
next_scope_attempt n m h k = ground arith

valid-lacks_scope :
    (r : Row) (class : WorkerClass)
    → is_valid_input r.input ≡ true
    → class.queue_name ≡ r.input.queue_name
    → next_attempt (pos r.attempt) ≡ pos (suc r.attempt)
    → (lacks_scope (task_scope r class) ≡ false)
      × (owns_queue (task_scope r class).worker_class (task_scope r class).queue_name ≡ true)
unfolding is_valid_input lacks_scope to_claim_scope scanned_row
valid-lacks_scope r class h q n = rw (q, n) (ground (arith, h))

own_workspace : (o : Option Text) → is_blank_ptr o ≡ false → column_is o (coalesce o) ≡ true
own_workspace none h = cc h
own_workspace (some w) h = text_eq_self w

task-in_scope :
    (r : Row) (class : WorkerClass)
    → is_blank_ptr r.input.workspace_id ≡ false
    → class.queue_name ≡ r.input.queue_name
    → next_attempt (pos r.attempt) ≡ pos (suc r.attempt)
    → in_scope (task_scope r class) r ≡ true
unfolding in_scope to_claim_scope scanned_row
task-in_scope r class h q n = rw (
  q,
  n,
  text_eq_self r.input.id,
  text_eq_self r.input.repo_indexing_job_id,
  (eqb_ℤ_iff r.input.org_id r.input.org_id).1 refl,
  own_workspace r.input.workspace_id h,
  (eqb_ℤ_iff r.input.repo_id r.input.repo_id).1 refl,
  text_eq_self r.input.branch,
  text_eq_self r.input.revision,
  text_eq_self r.input.commit_hash,
  text_eq_self r.input.layer,
  text_eq_self (coalesce r.input.language),
  text_eq_self (coalesce r.input.project_root),
  text_eq_self (coalesce r.input.indexer),
  text_eq_self r.input.worker_class,
  text_eq_self r.input.queue_name,
  (eqb_ℤ_iff (pos (suc r.attempt)) (pos (suc r.attempt))).1 refl,
)

valid-workspace :
    (input : CreateInput) → is_valid_input input ≡ true → is_blank_ptr input.workspace_id ≡ false
unfolding is_valid_input
valid-workspace input h = ground arith

dispatchable-claimable :
    (s : Store) (now : ℕ) (r : Row) → is_dispatchable s r ≡ true → claimable s now r ≡ true
unfolding is_dispatchable claimable
dispatchable-claimable s now r h = ground arith

dispatchable-attempts : (s : Store) (r : Row) → is_dispatchable s r ≡ true → has_attempts r ≡ true
unfolding is_dispatchable
dispatchable-attempts s r h = ground arith

-- A claim for the task of a row that is dispatchable.
task_claimed :
    (now : ℕ) (owner attempt_id : Text) (until : ℕ) (s : Store) (r : Row) (class : WorkerClass)
    → IsKeyed s.subjobs
    → is_empty owner ≡ false
    → is_empty attempt_id ≡ false
    → is_valid_input r.input ≡ true
    → leb_ℤ r.input.max_attempts (pos 2147483647) ≡ true
    → class.queue_name ≡ r.input.queue_name
    → row_of r.input.id s.subjobs ≡ some r
    → is_dispatchable s r ≡ true
    → ((claim_scoped done now (task_scope r class) owner attempt_id until s).1 ≡ ok true)
      × (row_of r.input.id
            (claim_scoped done now (task_scope r class) owner attempt_id until s).0.subjobs
          ≡ some (claim_row now owner attempt_id until r))
unfolding claim_scoped update_row respond may_claim to_claim_scope scanned_row claim_row
task_claimed now owner attempt_id until s r class keyed o a valid small q found ready =
    let scope = task_scope r class in
    let n =
      next_scope_attempt r.attempt r.input.max_attempts (dispatchable-attempts s r ready) small in
    let (scoped, owned) = valid-lacks_scope r class valid q n in
    let hit : may_claim scope s now r ≡ true =
      rw (task-in_scope r class (valid-workspace r.input valid) q n)
        (dispatchable-claimable s now r ready) in
    let (one, left) =
      met r.input.id (may_claim scope s now) (claim_row now owner attempt_id until) s.subjobs r
        (may_claim-For scope s now) keyed found hit (text_eq_self r.input.id) in
    rw (claim_scoped, scoped, owned, o, a, one) (refl, left)

-- If the ids of the subjobs are unique, every row that the dispatcher lists, that the upsert accepts
-- and whose allowed attempts are an int32, can be claimed at any time on that store: the worker that
-- gets the task of the row's class, under any owner and attempt id, is answered true if the statement
-- runs, and the row is then claimed with the next attempt.
pub listed_rows_claimed :
    (limit : ℤ) (now : ℕ) (owner attempt_id : Text) (until : ℕ) (s : Store)
    → IsKeyed s.subjobs
    → is_empty owner ≡ false
    → is_empty attempt_id ≡ false
    → All
        (λ r.
          is_valid_input r.input ≡ true
          → leb_ℤ r.input.max_attempts (pos 2147483647) ≡ true
          → (class : WorkerClass) → by_name r.input.worker_class ≡ some class
          → ((claim_scoped done now (task_scope r class) owner attempt_id until s).1 ≡ ok true)
            × (row_of r.input.id
                  (claim_scoped done now (task_scope r class) owner attempt_id until s).0.subjobs
                ≡ some (claim_row now owner attempt_id until r)))
        (dispatchable_rows limit s)
listed_rows_claimed limit now owner attempt_id until s keyed o a =
    All-map (λ (r : Row). (row_of r.input.id s.subjobs ≡ some r) × (is_dispatchable s r ≡ true)) _
      (dispatchable_rows limit s)
      (λ r k valid small class named.
        task_claimed now owner attempt_id until s r class keyed o a valid small
          (valid-class r.input class valid named) k.0 k.1)
      (listed_rows limit s keyed)
