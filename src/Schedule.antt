-- ===== src/Schedule.antt =====
-- internal/backend/scheduler/scheduler.go: requests become a pending job and a task on its queue.
-- Here the tables, the two requests and their errors; the children have the service's methods.
pub mod RepoIndex
pub mod Payloads
pub mod Index
pub mod Sync
pub mod Exclusive
pub mod Outcomes
pub mod Races
pub mod Twice
mod Tests
use codeintel.Base.{
  Bool, true, false, ◌&&◌, ◌||◌, Option, none, some, List, [], ◌∷◌, ◌++◌, ℕ, Text, codes, text_eq,
  Result, if◌then◌else◌, trim_space, trim_prefix, is_empty, not, dedup_from, keep, map,
}
use codeintel.Base.Int.{ℤ}
use codeintel.Leases.{Answer}

pub data JobStatus : Type 0 where
  pending in_progress completed failed : JobStatus

-- A row of "RepoIndexingJob"; `ref` is `metadata->>'ref'`.
pub record IndexJob : Type 0 where
  pub id : Text
  pub repo_id : ℤ
  pub kind : Text
  pub status : JobStatus
  pub ref : Option Text
  pub error_message : Option Text
  pub completed_at : Option ℕ
  pub created_at : Option ℕ
  pub updated_at : ℕ

pub record SyncJob : Type 0 where
  pub id : Text
  pub connection_id : ℤ
  pub status : JobStatus
  pub error_message : Option Text
  pub completed_at : Option ℕ
  pub updated_at : ℕ

pub record RepoName : Type 0 where
  pub id : ℤ
  pub org_id : ℤ
  pub name : Text

pub record Connection : Type 0 where
  pub id : ℤ
  pub org_id : ℤ
  pub name : Text

-- "RepoToConnection"
pub record Link : Type 0 where
  pub repo_id : ℤ
  pub connection_id : ℤ

pub record QueuedTask : Type 0 where
  pub queue : Text
  pub payload : Text

-- The tables, and the tasks that the queue took, the last one first.
pub record Tables : Type 0 where
  pub repos : List RepoName
  pub connections : List Connection
  pub links : List Link
  pub index_jobs : List IndexJob
  pub sync_jobs : List SyncJob
  pub queued : List QueuedTask

pub data ScheduleError : Type 0 where
  unavailable invalid_kind missing_ids repo_not_found connection_not_found : ScheduleError
  load_error insert_error marshal_error enqueue_error : ScheduleError
  job_already_active : Text → Text → JobStatus → ScheduleError

-- What the environment decides in one call: if the look-up is answered, what becomes of the INSERT, of
-- the task and of the UPDATE after a failure, the fresh UUID, the time, and the texts of the errors.
-- `snapshot` is what the INSERT reads of the index jobs. Under READ COMMITTED a statement reads as of
-- its start, before it waits for the advisory lock that it takes, so that jobs may be missing that
-- others committed while it waited.
pub record Fate : Type 0 where
  pub loading : Bool
  pub snapshot : List IndexJob
  pub inserting : Answer
  pub enqueueing : Answer
  pub marking : Answer
  pub job_id : Text
  pub now : ℕ
  pub cause : Text

abbrev pub is_active : JobStatus → Bool
is_active pending = true
is_active in_progress = true
is_active _ = false

abbrev pub is_still_pending : JobStatus → Bool
is_still_pending pending = true
is_still_pending _ = false

abbrev pub heads : Text
heads = codes "refs/heads/"

-- The names of a branch that are taken for one another.
unfoldable pub scheduler_ref_candidates : Text → List Text
unfolding trim_space trim_prefix dedup_from text_eq
scheduler_ref_candidates raw =
    let ref = trim_space raw in
    let stripped = trim_prefix ref heads in
    let other =
      if not (text_eq stripped ref) && not (is_empty (trim_space stripped))
      then stripped
      else heads ++ ref in
    if is_empty ref
    then []
    else dedup_from [] (keep (λ s. not (is_empty s)) (map trim_space (ref ∷ other ∷ [])))

-- The `errorMessage` of both methods that mark a failure.
abbrev pub failure_text : Text → Text
failure_text cause = codes "enqueue failed before worker delivery: " ++ cause
