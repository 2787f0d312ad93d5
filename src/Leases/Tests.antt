-- ===== src/Leases/Tests.antt =====
-- The life of two subjobs of a job: one in flight with its last attempt, one that waits.
use codeintel.Base.{
  Bool, ◌≡◌, ◌≢◌, refl, true, false, none, some, List, [], ◌∷◌, ℕ, ◌+◌, All, Text, codes, text_eq,
  contains, has_prefix, ok, exists_in, find_first, affected, first, insert_by, sort_by, trim_space,
  arith,
}
use codeintel.Base.Int.{pos, leb_ℤ}
use codeintel.Workers.{WorkerClass, by_name, find_class}
use codeintel.Subjobs.{CreateInput, Payload, Json, layer_zoekt, is_valid_input, owns_queue}
use codeintel.Dispatch.{Task}
use codeintel.Dispatch.Lock.{requeue_expired_and_dispatch}
use codeintel.Leases.{
  queued, running, artifact_written, succeeded, is_failed_status, skipped, Row, Job, Repo, Store,
  done, refused, respond, update_row, parent_runs,
}
use codeintel.Leases.Patterns.{ilike_contains, like, owner_like}
use codeintel.Leases.Claims.{
  ClaimScope, lacks_scope, in_scope, claimable, may_claim, claim_row, claim_scoped, held_by,
  may_finish, mark_succeeded, heartbeat, mark_artifact_written,
}
use codeintel.Leases.Validation.{
  ArtifactStore, zoekt_store, fits_store, in_payload, may_validate, validate_live_subjob_lease,
}
use codeintel.Leases.Failures.{
  normalize_failure, says_empty, failure_status, mark_failed, mark_retryable_infrastructure_failure,
  then_fail_parent, fail_parent,
}
use codeintel.Leases.Requeues.{requeue_expired_leases, is_expired}
use codeintel.Leases.Listing.{
  dispatchable_rows, is_dispatchable, dependencies_done, waits_for_clone, same_run,
}
use codeintel.Leases.Locking.{try_acquire_dispatch_lock, may_lock, owns_lock}
use codeintel.Leases.Keys.{IsKeyed}
use codeintel.Leases.Calls.{Call, claim, succeed, run_all}
use codeintel.Leases.Soundness.{IsSound, run_all-IsSound}
use codeintel.Leases.Rows.{row_of}
use codeintel.Leases.Attempts.{granted, claimed_once, claims_bounded}
use codeintel.Leases.Finals.{final_row_kept}
use codeintel.Leases.Exclusion.{leased_row_excluded, stranger-Refused, Refused}
use codeintel.Leases.Expiry.{expired_leases_end}
use codeintel.Leases.Closing.{failure_closes_job, NoneWaits}
use codeintel.Leases.Tasks.{task_scope, listed_rows_claimed}
use codeintel.Leases.Dispatching.{
  Environment, store_services, lock_excludes, dispatch_leaves_no_lock,
}

abbrev zoekt_input : CreateInput
zoekt_input = record {
  id = codes "a";
  repo_indexing_job_id = codes "job";
  code_intel_index_id = none;
  org_id = pos 1;
  workspace_id = some (codes "w");
  repo_id = pos 2;
  branch = codes "main";
  revision = codes "refs/heads/main";
  commit_hash = codes "0123456789abcdef0123456789abcdef01234567";
  layer = layer_zoekt;
  language = none;
  project_root = none;
  indexer = none;
  worker_class = codes "core";
  queue_name = codes "codeintel-index-core";
  max_attempts = pos 1;
  input_digest = none;
  toolchain_digest = none;
  image_digest = none;
}

abbrev waiting_row : Row
waiting_row = record {
  input = zoekt_input;
  status = queued;
  attempt = 0;
  attempt_id = none;
  lease_owner = none;
  lease_expires_at = none;
  heartbeat_at = none;
  started_at = none;
  completed_at = none;
  artifact_temp_path = none;
  artifact_path = none;
  artifact_sha256 = none;
  error_code = none;
  error_message = none;
  created_at = 1;
  updated_at = 1;
}

-- Held by the worker `o` under the attempt `i` until 20.
abbrev busy_row : Row
busy_row = record waiting_row {
  input = record zoekt_input { id = codes "b" };
  status = running;
  attempt = 1;
  attempt_id = some (codes "i");
  lease_owner = some (codes "o");
  lease_expires_at = some 20;
}

abbrev job : Job
job = record {
  id = codes "job";
  repo_id = pos 2;
  is_index = true;
  in_progress = true;
  is_failed = false;
  error_message = none;
  completed_at = none;
  updated_at = 1;
}

abbrev repo : Repo
repo = record { id = pos 2; org_id = pos 1; latest_failed = false; updated_at = 1 }

abbrev busy_payload : Payload
busy_payload = record {
  subjob_id = codes "b";
  repo_indexing_job_id = zoekt_input.repo_indexing_job_id;
  org_id = zoekt_input.org_id;
  workspace_id = zoekt_input.workspace_id;
  repo_id = zoekt_input.repo_id;
  branch = zoekt_input.branch;
  revision = zoekt_input.revision;
  commit_hash = zoekt_input.commit_hash;
  layer = zoekt_input.layer;
  language = none;
  project_root = none;
  indexer = none;
  worker_class = zoekt_input.worker_class;
  queue_name = zoekt_input.queue_name;
  attempt = pos 1;
}

abbrev store : Store
store = record {
  subjobs = waiting_row ∷ busy_row ∷ [];
  jobs = job ∷ [];
  repos = repo ∷ [];
  dispatch_lock = none;
}

abbrev scope : ClaimScope
scope = record {
  id = codes "a";
  repo_indexing_job_id = codes "job";
  org_id = pos 1;
  workspace_id = some (codes "w");
  repo_id = pos 2;
  branch = codes "main";
  revision = codes "refs/heads/main";
  commit_hash = codes "0123456789abcdef0123456789abcdef01234567";
  layer = layer_zoekt;
  language = none;
  project_root = none;
  indexer = none;
  worker_class = codes "core";
  queue_name = codes "codeintel-index-core";
  attempt = pos 1;
}

keyed : IsKeyed store.subjobs
unfolding IsKeyed text_eq
keyed = ((refl, tt), (tt, tt))

sound : All IsSound store.subjobs
unfolding IsSound
sound = (
  (refl, refl, refl, λ e. cc e, λ _. refl, refl),
  ((refl, refl, refl, λ _. refl, λ e. cc e, refl), tt),
)

-- The claim, its repetition, and the success of the other row.
abbrev history : List Call
history =
    claim done 10 scope (codes "p") (codes "j") 30
    ∷ claim done 11 scope (codes "q") (codes "k") 30
    ∷ succeed done 12 (codes "b") (codes "o") (codes "i")
    ∷ []

run_all-IsSound_example :
    IsKeyed (run_all history store).subjobs × All IsSound (run_all history store).subjobs
run_all-IsSound_example = run_all-IsSound history store keyed sound

won : (claim_scoped done 10 scope (codes "p") (codes "j") 30 store).1 ≡ ok true
unfolding claim_scoped lacks_scope owns_queue by_name find_class update_row respond affected
    may_claim in_scope claimable parent_runs exists_in text_eq
won = refl

claimed_once_example :
    (claim_scoped done 25 scope
      (codes "q")
      (codes "k")
      40
      (run_all [] (claim_scoped done 10 scope (codes "p") (codes "j") 30 store).0)).1
    ≢ ok true
claimed_once_example =
    claimed_once done 10 scope (codes "p") (codes "j") 30 store [] done 25 (codes "q") (codes "k")
      40 keyed won

found : row_of (codes "a") store.subjobs ≡ some waiting_row
unfolding row_of find_first text_eq
found = refl

found_busy : row_of (codes "b") store.subjobs ≡ some busy_row
unfolding row_of find_first text_eq
found_busy = refl

claims_bounded_example : leb_ℤ (pos (0 + granted (codes "a") history store)) (pos 1) ≡ true
claims_bounded_example = claims_bounded (codes "a") history store waiting_row keyed sound.0 found

abbrev succeeded_store : Store
succeeded_store = record store {
  subjobs = record waiting_row { status = succeeded; completed_at = some 3 } ∷ [];
}

final_row_kept_example :
    row_of (codes "a") (run_all history succeeded_store).subjobs
    ≡ some (record waiting_row { status = succeeded; completed_at = some 3 })
unfolding IsKeyed row_of find_first text_eq
final_row_kept_example = final_row_kept (codes "a") history succeeded_store _ (tt, tt) refl refl

leased_row_excluded_example :
    Refused store
      (claim_scoped done 10 (record scope { id = codes "b" }) (codes "p") (codes "j") 30 store)
leased_row_excluded_example =
    leased_row_excluded done 10 (record scope { id = codes "b" }) (codes "p") (codes "j") 30 store
      busy_row keyed found_busy sound.1.0 refl refl

not_held : held_by (codes "b") (codes "o") (codes "old") busy_row ≡ false
unfolding held_by text_eq
not_held = refl

stranger-Refused_example :
    ((until : ℕ)
      → Refused store (heartbeat done 10 (codes "b") (codes "o") (codes "old") until store))
    × ((temp_path path sha256 : Text)
        → Refused store (
            mark_artifact_written done 10
              (codes "b")
              (codes "o")
              (codes "old")
              temp_path
              path
              sha256
              store))
    × Refused store (mark_succeeded done 10 (codes "b") (codes "o") (codes "old") store)
    × ((code message : Text)
        → Refused store
            (mark_failed done done 10 (codes "b") (codes "o") (codes "old") code message store))
    × ((code message : Text)
        → Refused store (
            mark_retryable_infrastructure_failure done done 10
              (codes "b")
              (codes "o")
              (codes "old")
              code
              message
              store))
    × ((artifacts : ArtifactStore) (p : Payload) (pending : CreateInput → Bool) (path sha256 : Text)
        → Refused store (
            validate_live_subjob_lease done 10 artifacts
              (record p { subjob_id = codes "b" })
              pending
              (codes "o")
              (codes "old")
              path
              sha256
              store))
stranger-Refused_example =
    stranger-Refused done done 10 (codes "b") (codes "o") (codes "old") store busy_row keyed
      found_busy not_held

-- The busy row, with its artifact written.
abbrev written_store : Store
written_store = record store {
  subjobs =
      record busy_row {
        status = artifact_written;
        artifact_path = some (codes "/a");
        artifact_sha256 = some (codes "s");
      }
      ∷ [];
}

artifact_validated :
    (validate_live_subjob_lease done 10 zoekt_store busy_payload
      (λ _. true)
      (codes "o")
      (codes "i")
      (codes "/a")
      (codes "s")
      written_store).1
    ≡ ok true
unfolding validate_live_subjob_lease may_validate update_row respond affected held_by in_payload
    fits_store parent_runs exists_in text_eq
artifact_validated = refl

expired_leases_end_example :
    All
      (λ r. is_expired store 50 r ≡ false)
      (requeue_expired_leases done (λ _. false) 50 50 (pos 10) store).0.subjobs
expired_leases_end_example =
    expired_leases_end (λ _. false) 50 50 (pos 10) store (λ _. refl) refl (omega arith)

busy_is_lost :
    is_failed_status (failure_status (normalize_failure (codes "C") (codes "m")).1 busy_row) ≡ true
unfolding failure_status normalize_failure trim_space text_eq
busy_is_lost = refl

failure_answered :
    (mark_failed done done 10 (codes "b") (codes "o") (codes "i") (codes "C") (codes "m") store).1
    ≡ ok true
unfolding mark_failed update_row respond affected may_finish held_by parent_runs exists_in text_eq
    then_fail_parent fail_parent
failure_answered = refl

failure_closes_job_example :
    NoneWaits
      (codes "b")
      (codes "job")
      (mark_failed done done 10
        (codes "b")
        (codes "o")
        (codes "i")
        (codes "C")
        (codes "m")
        store).0.subjobs
    × parent_runs
        (mark_failed done done 10
          (codes "b")
          (codes "o")
          (codes "i")
          (codes "C")
          (codes "m")
          store).0
        busy_row
      ≡ false
failure_closes_job_example =
    failure_closes_job done done 10 (codes "b") (codes "o") (codes "i") (codes "C") (codes "m")
      store busy_row keyed found_busy busy_is_lost failure_answered

listed_rows_claimed_example :
    All
      (λ r.
        is_valid_input r.input ≡ true
        → leb_ℤ r.input.max_attempts (pos 2147483647) ≡ true
        → (class : WorkerClass) → by_name r.input.worker_class ≡ some class
        → ((claim_scoped done 10 (task_scope r class) (codes "p") (codes "j") 30 store).1 ≡ ok true)
          × (row_of r.input.id
                (claim_scoped done 10
                  (task_scope r class)
                  (codes "p")
                  (codes "j")
                  30
                  store).0.subjobs
              ≡ some (claim_row 10 (codes "p") (codes "j") 30 r)))
      (dispatchable_rows (pos 10) store)
listed_rows_claimed_example =
    listed_rows_claimed (pos 10) 10 (codes "p") (codes "j") 30 store keyed refl refl

-- The listing finds the row that waits.
listed : dispatchable_rows (pos 10) store ≡ waiting_row ∷ []
unfolding dispatchable_rows is_dispatchable dependencies_done waits_for_clone same_run parent_runs
    exists_in first sort_by insert_by text_eq
listed = refl

locked_by_o : (try_acquire_dispatch_lock done 10 (codes "o") 40 store).1 ≡ ok true
unfolding try_acquire_dispatch_lock may_lock respond
locked_by_o = refl

apart : text_eq (codes "o") (codes "p") ≡ false
unfolding text_eq
apart = refl

lock_excludes_example :
    ((try_acquire_dispatch_lock done 30
        (codes "p")
        60
        (try_acquire_dispatch_lock done 10 (codes "o") 40 store).0).1
      ≢ ok true)
    × ((try_acquire_dispatch_lock done 30
          (codes "p")
          60
          (try_acquire_dispatch_lock done 10 (codes "o") 40 store).0).0
        ≡ (try_acquire_dispatch_lock done 10 (codes "o") 40 store).0)
lock_excludes_example =
    lock_excludes done done 10 30 (codes "o") (codes "p") 40 60 store locked_by_o apart refl

abbrev environment : Environment
environment = record {
  listing = done;
  requeueing = done;
  reconciling = refused;
  acquiring = done;
  releasing = done;
  locked = λ _. false;
  second = λ _. false;
  clock = 10;
}

abbrev blank_json : Json
blank_json = record { encode = λ _. codes "p"; decode = λ _. none }

dispatch_leaves_no_lock_example :
    owns_lock
      (codes "o")
      (requeue_expired_and_dispatch blank_json
        (store_services environment (λ (task : Task) (q : List Task). (task ∷ q, none)))
        (codes "o")
        10
        (pos 5)
        (pos 5)
        (store, [])).0.0
    ≡ false
unfolding owns_lock
dispatch_leaves_no_lock_example =
    dispatch_leaves_no_lock blank_json environment
      (λ (task : Task) (q : List Task). (task ∷ q, none)) (codes "o") 10 (pos 5) (pos 5) store []
      refl refl (λ e. cc e) refl

-- A percent sign in a prefix matches any text.
any_owner : owner_like (codes "index-1") (codes "i%1") ≡ true
unfolding owner_like like
any_owner = refl

-- An index without content is not tried again.
gives_up_empty :
    failure_status
      (codes "Semantically EMPTY .scip index")
      (record busy_row { input = record zoekt_input { layer = codes "SCIP" } })
    ≡ skipped
unfolding failure_status says_empty ilike_contains contains has_prefix text_eq
gives_up_empty = refl
