-- ===== src/Leases.antt =====
-- internal/backend/indexsubjobs/store.go: the life of a subjob's row after it was inserted. Here the
-- tables that the statements of the store read and write; the children have the statements.
pub mod Patterns
pub mod Claims
pub mod Failures
pub mod Requeues
pub mod Reconcile
pub mod Listing
pub mod Locking
pub mod Validation
pub mod Steps
pub mod Keys
pub mod WorkerMoves
pub mod SweepMoves
pub mod Calls
pub mod Soundness
pub mod Rows
pub mod Outcomes
pub mod Attempts
pub mod Finals
pub mod Exclusion
pub mod Expiry
pub mod Closing
pub mod Tasks
pub mod Dispatching
mod Tests
pub mod Inserts
use codeintel.Base.{
  Bool, true, false, not, ◌&&◌, ◌||◌, Option, none, some, List, [], ◌∷◌, ◌++◌, ℕ, ltb, leb, Text,
  codes, text_eq, Result, ok, err, if◌then◌else◌, exists_in, find_first, update, affected, ◌==◌,
}
use codeintel.Base.Int.{ℤ, pos, ltb_ℤ, eqb_ℤ}
use codeintel.Subjobs.{CreateInput, layer_scip, layer_ast_tree_sitter}

-- The values that the CHECK constraint of migration 0024 admits.
pub data Status : Type 0 where
  queued claimed running artifact_written validating : Status
  succeeded failed retrying canceled skipped : Status

-- A row of "CodeIntelIndexSubjob"; NULL is `none`. `attempt` starts at 0 and only counts up.
pub record Row : Type 0 where
  pub input : CreateInput
  pub status : Status
  pub attempt : ℕ
  pub attempt_id : Option Text
  pub lease_owner : Option Text
  pub lease_expires_at : Option ℕ
  pub heartbeat_at : Option ℕ
  pub started_at : Option ℕ
  pub completed_at : Option ℕ
  pub artifact_temp_path : Option Text
  pub artifact_path : Option Text
  pub artifact_sha256 : Option Text
  pub error_code : Option Text
  pub error_message : Option Text
  pub created_at : ℕ
  pub updated_at : ℕ

-- The columns of "RepoIndexingJob" that the statements name.
pub record Job : Type 0 where
  pub id : Text
  pub repo_id : ℤ
  pub is_index : Bool
  pub in_progress : Bool
  pub is_failed : Bool
  pub error_message : Option Text
  pub completed_at : Option ℕ
  pub updated_at : ℕ

pub record Repo : Type 0 where
  pub id : ℤ
  pub org_id : ℤ
  pub latest_failed : Bool
  pub updated_at : ℕ

pub record LockRow : Type 0 where
  pub owner : Text
  pub expires_at : ℕ

pub record Store : Type 0 where
  pub subjobs : List Row
  pub jobs : List Job
  pub repos : List Repo
  pub dispatch_lock : Option LockRow

pub data LeaseError : Type 0 where
  missing_scope queue_mismatch missing_holder missing_limit missing_prefix : LeaseError
  database_error : LeaseError

-- What becomes of a statement: it runs and answers, it does not run, or its answer is lost.
pub data Answer : Type 0 where
  done refused lost : Answer

unfoldable pub respond {ℓ} : {A : Type ℓ} → Answer → Store → Store → A → Store × Result LeaseError A
respond done before after a = (after, ok a)
respond refused before after a = (before, err database_error)
respond lost before after a = (after, err database_error)

-- status IN ('CLAIMED', 'RUNNING', 'ARTIFACT_WRITTEN', 'VALIDATING')
abbrev pub in_flight : Status → Bool
in_flight claimed = true
in_flight running = true
in_flight artifact_written = true
in_flight validating = true
in_flight _ = false

-- status IN ('CLAIMED', 'RUNNING')
abbrev pub is_starting : Status → Bool
is_starting claimed = true
is_starting running = true
is_starting _ = false

-- status IN ('QUEUED', 'RETRYING')
abbrev pub is_waiting : Status → Bool
is_waiting queued = true
is_waiting retrying = true
is_waiting _ = false

abbrev pub is_claimed : Status → Bool
is_claimed claimed = true
is_claimed _ = false

abbrev pub is_retrying : Status → Bool
is_retrying retrying = true
is_retrying _ = false

abbrev pub is_failed_status : Status → Bool
is_failed_status failed = true
is_failed_status _ = false

-- `column = value`, which NULL never meets.
abbrev pub column_is : Option Text → Text → Bool
column_is none value = false
column_is (some s) value = text_eq s value

-- `column < time`
abbrev pub is_before : Option ℕ → ℕ → Bool
is_before none time = false
is_before (some t) time = ltb t time

-- `column > time`
abbrev pub is_after : Option ℕ → ℕ → Bool
is_after none time = false
is_after (some t) time = ltb time t

abbrev pub coalesce_ℕ : Option ℕ → ℕ → ℕ
coalesce_ℕ none t = t
coalesce_ℕ (some s) t = s

-- `attempt < "maxAttempts"`
abbrev pub has_attempts : Row → Bool
has_attempts r = ltb_ℤ (pos r.attempt) r.input.max_attempts

abbrev pub is_semantic : Text → Bool
is_semantic layer = text_eq layer layer_scip || text_eq layer layer_ast_tree_sitter

-- `j.id = s."repoIndexingJobId" AND j."repoId" = s."repoId"`
abbrev pub is_parent : Row → Job → Bool
is_parent r j = text_eq j.id r.input.repo_indexing_job_id && eqb_ℤ j.repo_id r.input.repo_id

abbrev pub is_open : Job → Bool
is_open j = j.is_index && j.in_progress

-- The job of a row is an INDEX job in progress, and its repository is one of the row's organisation.
unfoldable pub parent_runs : Store → Row → Bool
unfolding exists_in
parent_runs s r =
    exists_in
      (λ (j : Job).
        is_parent r j
        && is_open j
        && exists_in (λ (o : Repo). eqb_ℤ o.id j.repo_id && eqb_ℤ o.org_id r.input.org_id) s.repos)
      s.jobs

-- UPDATE of the subjobs, answered by whether one row was affected.
unfoldable pub update_row :
    Answer → (Row → Bool) → (Row → Row) → Store → Store × Result LeaseError Bool
unfolding respond update affected
update_row answer p f s =
    respond answer s (record s { subjobs = update p f s.subjobs }) (affected p s.subjobs == 1)
