-- ===== src/Dispatch/Tasks.antt =====
-- What the store accepts can be dispatched, and the worker gets it.
use mathlib.Core.Path.{subst}
use codeintel.Base.{
  ◌≡◌, sym, ap, ◌∙◌, true, false, not, ◌&&◌, none, some, [], arith, Text, text_eq, text_eq_self,
  is_empty, ok, ok-injective,
}
use codeintel.Base.Int.{ℤ}
use codeintel.Workers.{WorkerClass, by_name}
use codeintel.Subjobs.{
  CreateInput, Payload, Json, validate, marshal, unmarshal, is_valid_input, fits_layer, owns_queue,
}
use codeintel.Subjobs.Payloads.{owner-owns_queue, payload_roundtrip}
use codeintel.Dispatch.{Task, DispatchableSubjob, Uniqueness, make_task, payload_of}

-- The columns that `ListDispatchable` reads of a row.
unfoldable pub scanned_row : CreateInput → ℤ → DispatchableSubjob
scanned_row input attempt = record {
  id = input.id;
  repo_indexing_job_id = input.repo_indexing_job_id;
  org_id = input.org_id;
  workspace_id = input.workspace_id;
  repo_id = input.repo_id;
  branch = input.branch;
  revision = input.revision;
  commit_hash = input.commit_hash;
  layer = input.layer;
  language = input.language;
  project_root = input.project_root;
  indexer = input.indexer;
  worker_class = input.worker_class;
  queue_name = input.queue_name;
  attempt = attempt;
}

valid-queue :
    (input : CreateInput)
    → is_valid_input input ≡ true
    → owns_queue input.worker_class input.queue_name ≡ true
unfolding is_valid_input
valid-queue input h = ground (arith, h)

pub valid-class :
    (input : CreateInput) (class : WorkerClass)
    → is_valid_input input ≡ true
    → by_name input.worker_class ≡ some class
    → class.queue_name ≡ input.queue_name
valid-class input class h found =
    let (owner, named, q) =
      owner-owns_queue input.worker_class input.queue_name (valid-queue input h) in
    ap (λ o. elim o as (λ _. Text) [ none ↦ [] | some c ↦ c.queue_name ]) (sym found ∙ named) ∙ q

valid-payload :
    (input : CreateInput) (attempt : ℤ) (class : WorkerClass)
    → is_valid_input input ≡ true
    → class.queue_name ≡ input.queue_name
    → validate (payload_of (scanned_row input attempt) class) ≡ ok tt
unfolding is_valid_input validate scanned_row fits_layer
valid-payload input attempt class h q = rw q (ground (arith, h))

valid-marshal :
    (json : Json) (p : Payload) → validate p ≡ ok tt → marshal json p ≡ ok (json.encode p)
unfolding marshal
valid-marshal json p h = rw (marshal, h)

make_task_ok {ε} :
    (E : Type ε) (json : Json) (row : DispatchableSubjob) (u : Uniqueness) (class : WorkerClass)
    (raw : Text)
    → by_name row.worker_class ≡ some class
    → class.queue_name ≡ row.queue_name
    → marshal json (payload_of row class) ≡ ok raw
    → make_task {E = E} json row u
      ≡ ok (record { queue = row.queue_name; payload = raw; uniqueness = u })
unfolding make_task
make_task_ok E json row u class raw found q sent =
    let passes : (not (is_empty row.queue_name) && not (text_eq row.queue_name class.queue_name))
        ≡ false =
      rw (q, text_eq_self row.queue_name) (ground arith) in
    rw (make_task, found, passes, sent, q)

-- Every row that the store accepted becomes a task on its own queue with its payload, whatever its
-- attempt and the JSON encoder.
pub valid_row_dispatched {ε} :
    (E : Type ε) (json : Json) (input : CreateInput) (attempt : ℤ) (u : Uniqueness)
    (class : WorkerClass)
    → is_valid_input input ≡ true
    → by_name input.worker_class ≡ some class
    → make_task {E = E} json (scanned_row input attempt) u
      ≡ ok (record {
        queue = input.queue_name;
        payload = json.encode (payload_of (scanned_row input attempt) class);
        uniqueness = u;
      })
unfolding scanned_row
valid_row_dispatched E json input attempt u class h found =
    let same = valid-class input class h found in
    let sent = valid-marshal json _ (valid-payload input attempt class h same) in
    make_task_ok E json (scanned_row input attempt) u class _ found same sent

-- The worker accepts the task of every row that the store accepted, as it was sent, whatever its
-- attempt, if the JSON decoder gives back the row's payload.
pub dispatched_row_accepted {ε} :
    (E : Type ε) (json : Json) (input : CreateInput) (attempt : ℤ) (u : Uniqueness)
    (class : WorkerClass) (task : Task)
    → is_valid_input input ≡ true
    → by_name input.worker_class ≡ some class
    → let sent = payload_of (scanned_row input attempt) class in
      json.decode (json.encode sent) ≡ some sent
      → make_task {E = E} json (scanned_row input attempt) u ≡ ok task
      → unmarshal json task.payload ≡ ok sent
dispatched_row_accepted E json input attempt u class task h found back made =
    let same = valid-class input class h found in
    let sent = valid-marshal json _ (valid-payload input attempt class h same) in
    let dispatched = valid_row_dispatched E json input attempt u class h found in
    subst
      (λ (t : Task). unmarshal json t.payload ≡ ok (payload_of (scanned_row input attempt) class))
      (ok-injective (sym dispatched ∙ made)) (payload_roundtrip json _ _ back sent)
