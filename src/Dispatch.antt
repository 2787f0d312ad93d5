-- ===== src/Dispatch.antt =====
-- internal/backend/indexsubjobs/dispatcher.go: subjobs that are ready become tasks on the queue of
-- their worker class. The store and the queue are the source's interfaces, as functions on a state.
pub mod Loop
pub mod Counts
pub mod Tasks
pub mod Lock
mod Tests
use codeintel.Base.{
  Bool, true, false, not, ◌&&◌, Option, none, some, List, [], ◌∷◌, ◌++◌, ℕ, ◌+◌, zero, suc,
  is_empty, length, if◌then◌else◌, Text, codes, text_eq, Result, ok, err, reject, ◌>>=◌, ◌>>◌,
}
use codeintel.Base.Int.{ℤ, pos, negsuc, eqb_ℤ}
use codeintel.Workers.{WorkerClass, by_name}
use codeintel.Subjobs.{Payload, PayloadError, Json, marshal}
use codeintel.Planner.{sprint}
use codeintel.Planner.Build.{require}

pub record DispatchableSubjob : Type 0 where
  pub id : Text
  pub repo_indexing_job_id : Text
  pub org_id : ℤ
  pub workspace_id : Option Text
  pub repo_id : ℤ
  pub branch : Text
  pub revision : Text
  pub commit_hash : Text
  pub layer : Text
  pub language : Option Text
  pub project_root : Option Text
  pub indexer : Option Text
  pub worker_class : Text
  pub queue_name : Text
  pub attempt : ℤ

pub record DispatchStats : Type 0 where
  pub expired_requeued : ℕ
  pub terminal_failures_reconciled : ℕ
  pub scanned : ℕ
  pub enqueued : ℕ
  pub duplicates : ℕ
  pub rescued_duplicates : ℕ

abbrev pub no_stats : DispatchStats
no_stats = record {
  expired_requeued = 0;
  terminal_failures_reconciled = 0;
  scanned = 0;
  enqueued = 0;
  duplicates = 0;
  rescued_duplicates = 0;
}

-- How a task is kept from being queued twice: by its id, or by its content for a time.
pub data Uniqueness : Type 0 where
  task_id : Text → Uniqueness
  unique_for : ℕ → Uniqueness

pub record Task : Type 0 where
  pub queue : Text
  pub payload : Text
  pub uniqueness : Uniqueness

-- What the queue answers: its two errors for duplicates, or another.
pub data QueueError : Type 0 where
  task_id_conflict duplicate_task other_queue_error : QueueError

pub data DispatchError {ε} (E : Type ε) : Type ε where
  not_configured unknown_worker_class queue_mismatch : DispatchError E
  marshal_error : PayloadError → DispatchError E
  enqueue_error : QueueError → DispatchError E
  store_error : E → DispatchError E

-- `errors.Is(err, asynq.ErrTaskIDConflict) || errors.Is(err, asynq.ErrDuplicateTask)`
abbrev pub is_duplicate {ε} : {E : Type ε} → DispatchError E → Bool
is_duplicate (enqueue_error task_id_conflict) = true
is_duplicate (enqueue_error duplicate_task) = true
is_duplicate _ = false

-- `attempt + 1` on int32.
unfoldable pub next_attempt : ℤ → ℤ
next_attempt (pos n) = if eqb_ℤ (pos n) (pos 2147483647) then negsuc 2147483647 else pos (suc n)
next_attempt (negsuc zero) = pos 0
next_attempt (negsuc (suc n)) = negsuc n

-- Ten minutes in nanoseconds.
abbrev pub rescue_task_uniqueness_ttl : ℕ
rescue_task_uniqueness_ttl = 600000000000

unfoldable pub dispatch_task_id : Text → ℤ → Text
unfolding sprint
dispatch_task_id id attempt = codes "codeintel-index-subjob:" ++ id ++ codes ":" ++ sprint attempt

abbrev pub payload_of : DispatchableSubjob → WorkerClass → Payload
payload_of row class = record {
  subjob_id = row.id;
  repo_indexing_job_id = row.repo_indexing_job_id;
  org_id = row.org_id;
  workspace_id = row.workspace_id;
  repo_id = row.repo_id;
  branch = row.branch;
  revision = row.revision;
  commit_hash = row.commit_hash;
  layer = row.layer;
  language = row.language;
  project_root = row.project_root;
  indexer = row.indexer;
  worker_class = row.worker_class;
  queue_name = class.queue_name;
  attempt = next_attempt row.attempt;
}

abbrev pub marshalled {ε} : {E : Type ε} → Result PayloadError Text → Result (DispatchError E) Text
marshalled (ok raw) = ok raw
marshalled (err e) = err (marshal_error e)

module _ {ε} {E : Type ε} (json : Json) where
  -- The task of a row, which `enqueue` and `enqueueRescue` make alike up to its uniqueness.
  unfoldable pub make_task : DispatchableSubjob → Uniqueness → Result (DispatchError E) Task
  unfolding marshal
  make_task row uniqueness = do
    class ← require (by_name row.worker_class) unknown_worker_class
    reject (not (is_empty row.queue_name) && not (text_eq row.queue_name class.queue_name))
        queue_mismatch
    raw ← marshalled (marshal json (payload_of row class))
    ok (record { queue = class.queue_name; payload = raw; uniqueness = uniqueness })

-- The interfaces `dispatchStore` and `taskEnqueuer`.
pub record Services {σ ε} (S : Type σ) (E : Type ε) : Type (σ ⊔ ε) where
  pub list_dispatchable : ℤ → S → S × Result E (List DispatchableSubjob)
  pub requeue_expired_leases : ℕ → ℤ → S → S × Result E ℕ
  pub reconcile_terminal_failures : ℤ → S → S × Result E ℕ
  pub try_acquire_dispatch_lock : Text → ℕ → S → S × Result E Bool
  pub release_dispatch_lock : Text → S → S × Option E
  pub enqueue_context : Task → S → S × Option QueueError

module _ {σ ε} {S : Type σ} {E : Type ε} (json : Json) (services : Services S E) where
  -- `EnqueueContext` with its error wrapped.
  unfoldable pub send : Task → S → S × Option (DispatchError E)
  send task s =
      let (s', failed) = services.enqueue_context task s in
      (s', elim failed [ none ↦ none | some e ↦ some (enqueue_error e) ])

  unfoldable pub send_row : Uniqueness → DispatchableSubjob → S → S × Option (DispatchError E)
  unfolding make_task send
  send_row uniqueness row s = elim (make_task {E = E} json row uniqueness) [
    | err e ↦ (s, some e)
    | ok task ↦ send task s
  ]

  unfoldable pub enqueue : DispatchableSubjob → S → S × Option (DispatchError E)
  unfolding send_row dispatch_task_id
  enqueue row s = send_row (task_id (dispatch_task_id row.id (next_attempt row.attempt))) row s

  unfoldable pub enqueue_rescue : DispatchableSubjob → S → S × Option (DispatchError E)
  unfolding send_row
  enqueue_rescue row s = send_row (unique_for rescue_task_uniqueness_ttl) row s

-- The test for a nil part in front of both methods.
unfoldable pub configured {σ ε} :
    {S : Type σ} {E : Type ε}
    → Option (Services S E)
    → (Services S E → S → S × DispatchStats × Option (DispatchError E))
    → S
    → S × DispatchStats × Option (DispatchError E)
configured none run s = (s, no_stats, some not_configured)
configured (some services) run s = run services s
