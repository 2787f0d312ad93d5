-- ===== src/Dispatch/Tests.antt =====
-- A dispatch of one row, on a store that is a lock and a list of tasks.
use codeintel.Base.{
  ◌≡◌, ◌≢◌, refl, Bool, true, false, none, some, List, [], ◌∷◌, ℕ, ◌+◌, ◌≤◌, Text, codes, text_eq,
  contains_string, if◌then◌else◌, ok, Bool-cases, inl, inr,
}
use codeintel.Base.Int.{ℤ, pos}
use codeintel.Workers.{by_name, find_class, class_core}
use codeintel.Subjobs.{
  CreateInput, Payload, Json, layer_zoekt, is_valid_input, is_commit_hash, valid_layer, owns_queue,
  fits_layer, validate, marshal, unmarshal,
}
use codeintel.Dispatch.{
  DispatchableSubjob, not_configured, Task, task_id, Services, make_task, send, send_row, enqueue,
  enqueue_rescue, configured, payload_of, next_attempt, task_id_conflict,
}
use codeintel.Dispatch.Loop.{dispatch_rows, dispatch_ready}
use codeintel.Dispatch.Counts.{dispatch_ready_counts}
use codeintel.Dispatch.Lock.{
  requeue_and_dispatch, requeue_expired_and_dispatch, dispatch_frees_lock, lock_lease,
}
use codeintel.Dispatch.Tasks.{scanned_row, valid_row_dispatched, dispatched_row_accepted}

abbrev zoekt_input : CreateInput
zoekt_input = record {
  id = codes "isj_1";
  repo_indexing_job_id = codes "job";
  code_intel_index_id = none;
  org_id = pos 1;
  workspace_id = some (codes "w");
  repo_id = pos 2;
  branch = codes "main";
  revision = codes "refs/heads/main";
  commit_hash = codes "0123456789abcdef0123456789abcdef01234567";
  layer = layer_zoekt;
  language = none;
  project_root = none;
  indexer = none;
  worker_class = codes "core";
  queue_name = codes "codeintel-index-core";
  max_attempts = pos 3;
  input_digest = none;
  toolchain_digest = none;
  image_digest = none;
}

unfoldable zoekt_row : DispatchableSubjob
unfolding scanned_row
zoekt_row = scanned_row zoekt_input (pos 0)

-- Every payload as one text.
abbrev blank_json : Json
blank_json = record { encode = λ _. codes "p"; decode = λ _. none }

abbrev is_full : List Task → Bool
is_full [] = false
is_full (_ ∷ _) = true

record Backend : Type 0 where
  locked : Bool
  tasks : List Task

abbrev idle : Backend
idle = record { locked = false; tasks = [] }

-- The queue takes one task and calls every other one a duplicate.
unfoldable backend : Services Backend Text
unfolding zoekt_row
backend = record {
  list_dispatchable = λ _ s. (s, ok (zoekt_row ∷ zoekt_row ∷ []));
  requeue_expired_leases = λ _ _ s. (s, ok 2);
  reconcile_terminal_failures = λ _ s. (s, ok 1);
  try_acquire_dispatch_lock =
      λ _ _ s. if s.locked then (s, ok false) else (record s { locked = true }, ok true);
  release_dispatch_lock = λ _ s. (record s { locked = false }, none);
  enqueue_context = λ task s.
      if is_full s.tasks
      then (s, some task_id_conflict)
      else (record s { tasks = task ∷ s.tasks }, none);
}

one_queued :
    (requeue_expired_and_dispatch blank_json backend (codes "me") 0 (pos 10) (pos 10) idle).1
    ≡ record {
      expired_requeued = 2;
      terminal_failures_reconciled = 1;
      scanned = 2;
      enqueued = 1;
      duplicates = 1;
      rescued_duplicates = 0;
    }
unfolding requeue_expired_and_dispatch requeue_and_dispatch dispatch_ready dispatch_rows enqueue
    enqueue_rescue send_row send make_task marshal validate is_commit_hash valid_layer owns_queue
    by_name find_class text_eq contains_string backend zoekt_row scanned_row next_attempt
one_queued = refl

no_dispatcher :
    (configured {E = Text} none (λ services s. dispatch_ready blank_json services (pos 1) s) idle).2
    ≡ some not_configured
unfolding configured
no_dispatcher = refl

dispatch_ready_counts_example :
    let out = dispatch_ready blank_json backend (pos 10) idle in
    (out.1.enqueued + out.1.duplicates ≤ out.1.scanned)
    × (out.1.rescued_duplicates ≤ out.1.duplicates)
    × (out.2 ≡ none → out.1.enqueued + out.1.duplicates ≡ out.1.scanned)
dispatch_ready_counts_example = dispatch_ready_counts blank_json backend (pos 10) idle

abbrev IsHeld : Backend → Type 0
IsHeld s = s.locked ≡ true

abbrev IsFree : Backend → Type 0
IsFree s = s.locked ≡ false

listing-IsHeld : (limit : ℤ) (s : Backend) → IsHeld s → IsHeld (backend.list_dispatchable limit s).0
unfolding backend
listing-IsHeld limit s h = h

requeueing-IsHeld :
    (now : ℕ) (limit : ℤ) (s : Backend)
    → IsHeld s
    → IsHeld (backend.requeue_expired_leases now limit s).0
unfolding backend
requeueing-IsHeld now limit s h = h

reconciling-IsHeld :
    (limit : ℤ) (s : Backend) → IsHeld s → IsHeld (backend.reconcile_terminal_failures limit s).0
unfolding backend
reconciling-IsHeld limit s h = h

queueing-IsHeld : (task : Task) (s : Backend) → IsHeld s → IsHeld (backend.enqueue_context task s).0
unfolding backend
queueing-IsHeld task s h = elim (Bool-cases (is_full s.tasks)) [
  | inl e ↦ rw (backend, e) h
  | inr e ↦ rw (backend, e) h
]

releasing-IsFree :
    (t : Backend) → IsHeld t → IsFree (backend.release_dispatch_lock (codes "me") t).0
unfolding backend
releasing-IsFree t h = refl

taken-IsHeld :
    (backend.try_acquire_dispatch_lock (codes "me") (0 + lock_lease) idle).1 ≡ ok true
    → IsHeld (backend.try_acquire_dispatch_lock (codes "me") (0 + lock_lease) idle).0
unfolding backend
taken-IsHeld h = refl

refused-IsFree :
    (backend.try_acquire_dispatch_lock (codes "me") (0 + lock_lease) idle).1 ≢ ok true
    → IsFree (backend.try_acquire_dispatch_lock (codes "me") (0 + lock_lease) idle).0
unfolding backend
refused-IsFree h = absurd (h refl)

dispatch_frees_lock_example :
    IsFree (requeue_expired_and_dispatch blank_json backend (codes "me") 0 (pos 10) (pos 10) idle).0
dispatch_frees_lock_example =
    dispatch_frees_lock blank_json backend IsHeld IsFree listing-IsHeld requeueing-IsHeld
      reconciling-IsHeld queueing-IsHeld (codes "me") 0 (pos 10) (pos 10) idle releasing-IsFree
      taken-IsHeld refused-IsFree

abbrev zoekt_payload : Payload
zoekt_payload = record {
  subjob_id = codes "isj_1";
  repo_indexing_job_id = codes "job";
  org_id = pos 1;
  workspace_id = some (codes "w");
  repo_id = pos 2;
  branch = codes "main";
  revision = codes "refs/heads/main";
  commit_hash = codes "0123456789abcdef0123456789abcdef01234567";
  layer = layer_zoekt;
  language = none;
  project_root = none;
  indexer = none;
  worker_class = codes "core";
  queue_name = codes "codeintel-index-core";
  attempt = pos 1;
}

abbrev zoekt_json : Json
zoekt_json = record { encode = λ _. codes "p"; decode = λ _. some zoekt_payload }

zoekt_valid : is_valid_input zoekt_input ≡ true
unfolding is_valid_input is_commit_hash valid_layer owns_queue fits_layer by_name find_class text_eq
    contains_string
zoekt_valid = refl

core_found : by_name (codes "core") ≡ some class_core
unfolding by_name find_class text_eq
core_found = refl

abbrev zoekt_task : Task
zoekt_task = record {
  queue = codes "codeintel-index-core";
  payload = codes "p";
  uniqueness = task_id (codes "t");
}

zoekt_back :
    zoekt_json.decode (codes "p") ≡ some (payload_of (scanned_row zoekt_input (pos 0)) class_core)
unfolding scanned_row next_attempt
zoekt_back = refl

valid_row_dispatched_example :
    make_task {E = Text} zoekt_json (scanned_row zoekt_input (pos 0)) (task_id (codes "t"))
    ≡ ok zoekt_task
unfolding scanned_row next_attempt
valid_row_dispatched_example =
    valid_row_dispatched Text zoekt_json zoekt_input (pos 0) (task_id (codes "t")) class_core
      zoekt_valid core_found

dispatched_row_accepted_example :
    unmarshal zoekt_json (codes "p") ≡ ok (payload_of (scanned_row zoekt_input (pos 0)) class_core)
dispatched_row_accepted_example =
    dispatched_row_accepted Text zoekt_json zoekt_input (pos 0) (task_id (codes "t")) class_core
      zoekt_task zoekt_valid core_found zoekt_back valid_row_dispatched_example
