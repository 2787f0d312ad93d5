-- ===== src/Schedule/Index.antt =====
-- `ScheduleRepoIndex`.
use codeintel.Base.{
  Bool, true, false, not, ◌&&◌, ◌||◌, Option, none, some, List, [], ◌∷◌, keep, ℕ, ltb, Text,
  text_eq, text_lt, contains_string, Result, ok, err, if◌then◌else◌, trim_space, is_empty,
  exists_in, find_first, update, sort_by, ◌==◌,
}
use codeintel.Base.Int.{ℤ, pos, leb_ℤ, eqb_ℤ}
use codeintel.Workers.Queues.{queue_repo_index}
use codeintel.Leases.{Answer, done, refused, lost}
use codeintel.Schedule.{
  pending, failed, IndexJob, RepoName, Connection, Link, QueuedTask, Tables, ScheduleError,
  unavailable, invalid_kind, missing_ids, repo_not_found, load_error, insert_error, marshal_error,
  enqueue_error, job_already_active, Fate, is_active, is_still_pending, scheduler_ref_candidates,
  failure_text,
}
use codeintel.Schedule.RepoIndex.{TaskPayload, TaskJson, is_valid_type, marshal_task}

pub record RepoScheduleRequest : Type 0 where
  pub org_id : ℤ
  pub repo_id : ℤ
  pub kind : Text
  pub ref : Text

-- The repository is one of the organisation and has a connection of it.
unfoldable pub is_schedulable : Tables → RepoScheduleRequest → RepoName → Bool
unfolding exists_in
is_schedulable t req r =
    eqb_ℤ r.id req.repo_id
    && eqb_ℤ r.org_id req.org_id
    && exists_in
        (λ (l : Link).
          eqb_ℤ l.repo_id r.id
          && exists_in (λ (c : Connection). eqb_ℤ c.id l.connection_id && eqb_ℤ c.org_id r.org_id)
              t.connections)
        t.links

-- The refs of a request and of a job stand for the same work: one is empty, or they name one branch.
unfoldable pub refs_meet : Text → Option Text → Bool
unfolding scheduler_ref_candidates contains_string
refs_meet ref none = true
refs_meet ref (some old) =
    is_empty ref || is_empty old || contains_string (scheduler_ref_candidates ref) old

-- The rows of the CTE `existing`.
unfoldable pub is_rival : ℤ → Text → IndexJob → Bool
unfolding refs_meet
is_rival repo_id ref j = eqb_ℤ j.repo_id repo_id && is_active j.status && refs_meet ref j.ref

-- NULLS LAST in descending order.
abbrev pub newer_time : Option ℕ → Option ℕ → Bool → Bool
newer_time (some t) (some u) rest = ltb u t || (t == u && rest)
newer_time (some _) none rest = true
newer_time none (some _) rest = false
newer_time none none rest = rest

-- ORDER BY j."createdAt" DESC NULLS LAST, j.id DESC
unfoldable pub newest_first : IndexJob → IndexJob → Bool
newest_first a b = newer_time a.created_at b.created_at (text_lt b.id a.id)

abbrev pub first_of : List IndexJob → Option IndexJob
first_of [] = none
first_of (j ∷ _) = some j

unfoldable pub existing_job : List IndexJob → ℤ → Text → Option IndexJob
unfolding is_rival newest_first sort_by
existing_job jobs repo_id ref = first_of (sort_by newest_first (keep (is_rival repo_id ref) jobs))

unfoldable pub pending_job : Fate → ℤ → Text → Text → IndexJob
pending_job fate repo_id kind ref = record {
  id = fate.job_id;
  repo_id = repo_id;
  kind = kind;
  status = pending;
  ref = if is_empty ref then none else some ref;
  error_message = none;
  completed_at = none;
  created_at = some fate.now;
  updated_at = fate.now;
}

-- The tables after the statement: the job that is active already, or the new one.
unfoldable pub with_job : Option IndexJob → IndexJob → Tables → Tables
with_job none j t = record t { index_jobs = j ∷ t.index_jobs }
with_job (some _) j t = t

unfoldable pub answer_insert {ℓ} :
    {A : Type ℓ} → Answer → Tables → Tables → A → Tables × Result ScheduleError A
answer_insert done before after a = (after, ok a)
answer_insert refused before after a = (before, err insert_error)
answer_insert lost before after a = (after, err insert_error)

-- The job that is active already in the statement's snapshot, or none if the new one was inserted. The
-- insertion itself is one step on the table as it is then.
unfoldable pub insert_pending_repo_index_job :
    Fate → ℤ → Text → Text → Tables → Tables × Result ScheduleError (Option IndexJob)
unfolding existing_job pending_job with_job answer_insert
insert_pending_repo_index_job fate repo_id kind ref t =
    let found = existing_job fate.snapshot repo_id ref in
    answer_insert fate.inserting t (with_job found (pending_job fate repo_id kind ref) t) found

unfoldable pub fail_pending : Fate → IndexJob → IndexJob
fail_pending fate j = record j {
  status = failed;
  error_message = some (failure_text fate.cause);
  completed_at = some fate.now;
  updated_at = fate.now;
}

unfoldable pub is_pending_job : Text → IndexJob → Bool
is_pending_job job_id j = text_eq j.id job_id && is_still_pending j.status

-- An UPDATE with its fate.
unfoldable pub unless_refused : Answer → Tables → Tables → Tables
unless_refused refused before after = before
unless_refused done before after = after
unless_refused lost before after = after

unfoldable pub mark_repo_index_job_failed_after_enqueue_error : Fate → Text → Tables → Tables
unfolding update fail_pending is_pending_job unless_refused
mark_repo_index_job_failed_after_enqueue_error fate job_id t =
    unless_refused fate.marking t
      (record t { index_jobs = update (is_pending_job job_id) (fail_pending fate) t.index_jobs })

-- `EnqueueContext` on the queue.
abbrev pub enqueued : Answer → QueuedTask → Tables → Tables
enqueued refused task t = t
enqueued _ task t = record t { queued = task ∷ t.queued }

abbrev pub task_payload : RepoScheduleRequest → Text → Text → TaskPayload
task_payload req job_id repo_name = record {
  kind = req.kind;
  job_id = job_id;
  repo_id = req.repo_id;
  org_id = req.org_id;
  repo_name = repo_name;
  ref = trim_space req.ref;
}

-- The answer of the queue: the job's id, or an error after the job is marked.
unfoldable pub answer_enqueue : Answer → Fate → Tables → Tables × Result ScheduleError Text
unfolding mark_repo_index_job_failed_after_enqueue_error
answer_enqueue done fate t = (t, ok fate.job_id)
answer_enqueue refused fate t =
    (mark_repo_index_job_failed_after_enqueue_error fate fate.job_id t, err enqueue_error)
answer_enqueue lost fate t =
    (mark_repo_index_job_failed_after_enqueue_error fate fate.job_id t, err enqueue_error)

-- What follows the INSERT.
unfoldable pub send_index_task :
    TaskJson → Fate → RepoScheduleRequest → Text → Tables → Tables × Result ScheduleError Text
unfolding marshal_task mark_repo_index_job_failed_after_enqueue_error answer_enqueue
send_index_task json fate req repo_name t =
    elim (marshal_task json (task_payload req fate.job_id repo_name)) [
      | err _ ↦
          (mark_repo_index_job_failed_after_enqueue_error fate fate.job_id t, err marshal_error)
      | ok payload ↦
          answer_enqueue fate.enqueueing fate
            (enqueued fate.enqueueing (record { queue = queue_repo_index; payload = payload }) t)
    ]

unfoldable pub insert_and_send :
    TaskJson → Fate → RepoScheduleRequest → Text → Tables → Tables × Result ScheduleError Text
unfolding insert_pending_repo_index_job send_index_task
insert_and_send json fate req repo_name t =
    let (t1, inserted) =
      insert_pending_repo_index_job fate req.repo_id req.kind (trim_space req.ref) t in
    elim inserted [
      | err e ↦ (t1, err e)
      | ok (some active) ↦ (t1, err (job_already_active active.id active.kind active.status))
      | ok none ↦ send_index_task json fate req repo_name t1
    ]

-- `ErrRepoNotFound`, or the rest.
unfoldable pub for_repo :
    TaskJson
    → Fate
    → RepoScheduleRequest
    → Tables
    → Option RepoName
    → Tables × Result ScheduleError Text
unfolding insert_and_send
for_repo json fate req t none = (t, err repo_not_found)
for_repo json fate req t (some repo) = insert_and_send json fate req repo.name t

-- The result is the job's id; `AlreadyAtCapacity` is never set. `configured` says that the service has
-- its database and its queue.
unfoldable pub schedule_repo_index :
    TaskJson → Bool → Fate → RepoScheduleRequest → Tables → Tables × Result ScheduleError Text
unfolding is_valid_type is_schedulable find_first for_repo
schedule_repo_index json configured fate req t =
    if not configured
    then (t, err unavailable)
    else if not (is_valid_type req.kind)
    then (t, err invalid_kind)
    else if leb_ℤ req.org_id (pos 0) || leb_ℤ req.repo_id (pos 0)
    then (t, err missing_ids)
    else if not fate.loading
    then (t, err load_error)
    else for_repo json fate req t (find_first (is_schedulable t req) t.repos)
