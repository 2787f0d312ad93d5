-- ===== src/Schedule/Outcomes.antt =====
-- A request ends with a task for a pending job, or without a pending job.
use mathlib.Core.Path.{subst}
use codeintel.Base.{
  ◌≡◌, ◌≢◌, refl, sym, ap, ◌∙◌, inl, inr, Bool, true, false, not, ◌||◌, Option, none, some, ◌∷◌,
  All, All-intro, All-updated, Text, text_eq_self, trim_space, if◌then◌else◌, Result-cases, Result,
  ok, err, ok-injective, arith, find_first,
}
use codeintel.Base.Int.{pos, leb_ℤ}
use codeintel.Workers.Queues.{queue_repo_index}
use codeintel.Leases.{Answer, done, refused, lost}
use codeintel.Schedule.{
  IndexJob, RepoName, Tables, Fate, ScheduleError, QueuedTask, unavailable, invalid_kind,
  missing_ids, load_error,
}
use codeintel.Schedule.RepoIndex.{
  TaskPayload, TaskJson, is_valid_type, marshal_task, unmarshal_task,
}
use codeintel.Schedule.Payloads.{marshal_task-encode, task_roundtrip}
use codeintel.Schedule.Index.{
  RepoScheduleRequest, is_schedulable, existing_job, pending_job, insert_pending_repo_index_job,
  enqueued, with_job, answer_insert, fail_pending, is_pending_job, unless_refused, answer_enqueue,
  for_repo, mark_repo_index_job_failed_after_enqueue_error, send_index_task, insert_and_send,
  schedule_repo_index, task_payload,
}

-- No job of the id is pending.
abbrev pub NonePending : Text → Tables → Type 0
NonePending id t = All (λ j. is_pending_job id j ≡ false) t.index_jobs

-- An error leaves no pending job of the id.
abbrev Settled : Text → Tables × Result ScheduleError Text → Type 0
Settled id x = (e : ScheduleError) → x.1 ≡ err e → NonePending id x.0

applied :
    (answer : Answer) (t u : Tables) (id : Text)
    → answer ≢ refused
    → NonePending id u
    → NonePending id (unless_refused answer t u)
unfolding unless_refused
applied done t u id h k = k
applied refused t u id h k = absurd (h refl)
applied lost t u id h k = k

mark-NonePending :
    (fate : Fate) (t : Tables)
    → fate.marking ≢ refused
    → NonePending fate.job_id (mark_repo_index_job_failed_after_enqueue_error fate fate.job_id t)
unfolding mark_repo_index_job_failed_after_enqueue_error fail_pending is_pending_job
mark-NonePending fate t h = applied fate.marking t _ fate.job_id h (
    All-updated (λ j. is_pending_job fate.job_id j ≡ false) (is_pending_job fate.job_id)
      (fail_pending fate) t.index_jobs (λ j. ground arith) (All-intro _ t.index_jobs (λ j e. e)))

answer_enqueue-Settled :
    (answer : Answer) (fate : Fate) (t : Tables)
    → fate.marking ≢ refused
    → Settled fate.job_id (answer_enqueue answer fate t)
unfolding answer_enqueue
answer_enqueue-Settled done fate t h e q = cc q
answer_enqueue-Settled refused fate t h e q = mark-NonePending fate t h
answer_enqueue-Settled lost fate t h e q = mark-NonePending fate t h

send-Settled :
    (json : TaskJson) (fate : Fate) (req : RepoScheduleRequest) (name : Text) (t : Tables)
    → fate.marking ≢ refused
    → Settled fate.job_id (send_index_task json fate req name t)
unfolding send_index_task
send-Settled json fate req name t h =
    elim (Result-cases (marshal_task json (task_payload req fate.job_id name))) [
      | inr (e, k) ↦ rw (send_index_task, k) (λ _ _. mark-NonePending fate t h)
      | inl (raw, k) ↦ rw (send_index_task, k) (answer_enqueue-Settled fate.enqueueing fate _ h)
    ]

-- Unless the answer is lost, the INSERT leaves the tables as they were if it gives an error or an
-- active job.
unchanged :
    (answer : Answer) (found : Option IndexJob) (j : IndexJob) (t : Tables)
    → answer ≢ lost
    → (answer_insert answer t (with_job found j t) found).1 ≢ ok none
    → (answer_insert answer t (with_job found j t) found).0 ≡ t
unfolding answer_insert with_job
unchanged done none j t a h = absurd (h refl)
unchanged done (some k) j t a h = refl
unchanged refused found j t a h = refl
unchanged lost found j t a h = absurd (a refl)

insert_and_send-Settled :
    (json : TaskJson) (fate : Fate) (req : RepoScheduleRequest) (name : Text) (t : Tables)
    → fate.inserting ≢ lost
    → fate.marking ≢ refused
    → NonePending fate.job_id t
    → Settled fate.job_id (insert_and_send json fate req name t)
unfolding insert_and_send insert_pending_repo_index_job
insert_and_send-Settled json fate req name t a h fresh =
    let ref = trim_space req.ref in
    let found = existing_job fate.snapshot req.repo_id ref in
    let inserted = insert_pending_repo_index_job fate req.repo_id req.kind ref t in
    let same = unchanged fate.inserting found (pending_job fate req.repo_id req.kind ref) t a in
    let kept = λ (k : inserted.1 ≢ ok none).
      subst (λ (z : Tables). NonePending fate.job_id z) (sym (same k)) fresh in
    elim (Result-cases inserted.1) [
      | inr (e, q) ↦ rw (insert_and_send, q) (λ _ _. kept (λ k. cc (q, k)))
      | inl (some j, q) ↦ rw (insert_and_send, q) (λ _ _. kept (λ k. cc (ok-injective (sym q ∙ k))))
      | inl (none, q) ↦ rw (insert_and_send, q) (send-Settled json fate req name inserted.0 h)
    ]

for_repo-Settled :
    (json : TaskJson) (fate : Fate) (req : RepoScheduleRequest) (t : Tables)
    (found : Option RepoName)
    → fate.inserting ≢ lost
    → fate.marking ≢ refused
    → NonePending fate.job_id t
    → Settled fate.job_id (for_repo json fate req t found)
unfolding for_repo
for_repo-Settled json fate req t none a h fresh = λ _ _. fresh
for_repo-Settled json fate req t (some r) a h fresh =
    insert_and_send-Settled json fate req r.name t a h fresh

stop-Settled :
    (bad : Bool) (id : Text) (t : Tables) (e : ScheduleError)
    (x : Tables × Result ScheduleError Text)
    → NonePending id t
    → Settled id x
    → Settled id (if bad then (t, err e) else x)
stop-Settled true id t e x h k = λ _ _. h
stop-Settled false id t e x h k = k

-- If no job of the fresh id is pending before, the answer of the INSERT is not lost and the UPDATE of
-- the failure runs, then a request that ends with an error leaves no pending job of that id, whichever
-- step failed.
pub failed_request_settled :
    (json : TaskJson) (configured : Bool) (fate : Fate) (req : RepoScheduleRequest) (t : Tables)
    (e : ScheduleError)
    → fate.inserting ≢ lost
    → fate.marking ≢ refused
    → All (λ j. is_pending_job fate.job_id j ≡ false) t.index_jobs
    → (schedule_repo_index json configured fate req t).1 ≡ err e
    → All
        (λ j. is_pending_job fate.job_id j ≡ false)
        (schedule_repo_index json configured fate req t).0.index_jobs
unfolding schedule_repo_index
failed_request_settled json configured fate req t e a h fresh q =
    stop-Settled (not configured) fate.job_id t unavailable _ fresh
      (stop-Settled (not (is_valid_type req.kind)) fate.job_id t invalid_kind _ fresh (
        stop-Settled (leb_ℤ req.org_id (pos 0) || leb_ℤ req.repo_id (pos 0)) fate.job_id t
          missing_ids _ fresh
          (stop-Settled (not fate.loading) fate.job_id t load_error _ fresh (
            for_repo-Settled json fate req t (find_first (is_schedulable t req) t.repos) a h
              fresh))))
      e q

abbrev pub as_task : Text → QueuedTask
as_task payload = record { queue = queue_repo_index; payload = payload }

-- The task of a pending job is on the queue, and the worker can read it.
abbrev pub Delivered : TaskJson → Text → Tables → Tables × Result ScheduleError Text → Type 0
Delivered json id t x =
    (j : IndexJob) × (p : TaskPayload) × (x.0.index_jobs ≡ j ∷ t.index_jobs)
    × (is_pending_job id j ≡ true)
    × (p.job_id ≡ id)
    × (x.0.queued ≡ as_task (json.encode p) ∷ t.queued)
    × (json.decode (json.encode p) ≡ some p → unmarshal_task json (json.encode p) ≡ ok p)

pub answer_enqueue-ok :
    (answer : Answer) (fate : Fate) (task : QueuedTask) (t : Tables) (id : Text)
    → (answer_enqueue answer fate (enqueued answer task t)).1 ≡ ok id
    → (id ≡ fate.job_id)
      × ((answer_enqueue answer fate (enqueued answer task t)).0
          ≡ record t { queued = task ∷ t.queued })
unfolding answer_enqueue
answer_enqueue-ok done fate task t id h = (sym (ok-injective h), refl)
answer_enqueue-ok refused fate task t id h = cc h
answer_enqueue-ok lost fate task t id h = cc h

send-Delivered :
    (json : TaskJson) (fate : Fate) (req : RepoScheduleRequest) (name id ref : Text) (t : Tables)
    → (send_index_task json fate req name
        (record t { index_jobs = pending_job fate req.repo_id req.kind ref ∷ t.index_jobs })).1
      ≡ ok id
    → Delivered json id t (
        send_index_task json fate req name
          (record t { index_jobs = pending_job fate req.repo_id req.kind ref ∷ t.index_jobs }))
unfolding send_index_task pending_job is_pending_job
send-Delivered json fate req name id ref t h =
    let p = task_payload req fate.job_id name in
    let j = pending_job fate req.repo_id req.kind ref in
    let t1 : Tables = record t { index_jobs = j ∷ t.index_jobs } in
    elim (Result-cases (marshal_task json p)) [
      | inr (e, k) ↦ cc (rw (send_index_task, k) at h)
      | inl (raw, k) ↦
          let task = as_task raw in
          let (same, after) =
            answer_enqueue-ok fate.enqueueing fate task t1 id (rw (send_index_task, k) at h) in
          let (encoded, valid, owned) = marshal_task-encode json p raw k in
          rw (send_index_task, k)
            (
              j,
              p,
              ap (λ (z : Tables). z.index_jobs) after,
              rw same (rw (text_eq_self fate.job_id) refl),
              sym same,
              ap (λ (z : Tables). z.queued) after ∙ ap (λ s. as_task s ∷ t.queued) encoded,
              λ back.
                  subst (λ z. unmarshal_task json z ≡ ok p) encoded
                    (task_roundtrip json p raw back k).0,
            )
    ]

pub inserted_job :
    (answer : Answer) (found : Option IndexJob) (j : IndexJob) (t : Tables)
    → (answer_insert answer t (with_job found j t) found).1 ≡ ok none
    → (answer_insert answer t (with_job found j t) found).0
      ≡ record t { index_jobs = j ∷ t.index_jobs }
unfolding answer_insert with_job
inserted_job done none j t h = refl
inserted_job done (some k) j t h = cc (ok-injective h)
inserted_job refused found j t h = cc h
inserted_job lost found j t h = cc h

-- Nothing to deliver, or what was.
abbrev Answered : TaskJson → Tables → Tables × Result ScheduleError Text → Type 0
Answered json t x = (id : Text) → x.1 ≡ ok id → Delivered json id t x

insert_and_send-Answered :
    (json : TaskJson) (fate : Fate) (req : RepoScheduleRequest) (name : Text) (t : Tables)
    → Answered json t (insert_and_send json fate req name t)
unfolding insert_and_send insert_pending_repo_index_job
insert_and_send-Answered json fate req name t =
    let ref = trim_space req.ref in
    let found = existing_job fate.snapshot req.repo_id ref in
    let j = pending_job fate req.repo_id req.kind ref in
    let inserted = insert_pending_repo_index_job fate req.repo_id req.kind ref t in
    elim (Result-cases inserted.1) [
      | inr (e, q) ↦ rw (insert_and_send, q) (λ id h. cc h)
      | inl (some k, q) ↦ rw (insert_and_send, q) (λ id h. cc h)
      | inl (none, q) ↦
          rw (insert_and_send, q)
            (subst (λ (z : Tables). Answered json t (send_index_task json fate req name z))
              (sym (inserted_job fate.inserting found j t q))
              (λ id h. send-Delivered json fate req name id ref t h))
    ]

for_repo-Answered :
    (json : TaskJson) (fate : Fate) (req : RepoScheduleRequest) (t : Tables)
    (found : Option RepoName)
    → Answered json t (for_repo json fate req t found)
unfolding for_repo
for_repo-Answered json fate req t none = λ id h. cc h
for_repo-Answered json fate req t (some r) = insert_and_send-Answered json fate req r.name t

stop-Answered :
    (bad : Bool) (json : TaskJson) (t : Tables) (e : ScheduleError)
    (x : Tables × Result ScheduleError Text)
    → Answered json t x
    → Answered json t (if bad then (t, err e) else x)
stop-Answered true json t e x k = λ id h. cc h
stop-Answered false json t e x k = k

-- A request that answers with an id has added just one index job, which is pending under that id, and
-- just one task, which names that job; if the JSON decoder gives back its payload, the worker accepts
-- it as it was sent.
pub answered_request-Delivered :
    (json : TaskJson) (configured : Bool) (fate : Fate) (req : RepoScheduleRequest) (t : Tables)
    (id : Text)
    → (schedule_repo_index json configured fate req t).1 ≡ ok id
    → Delivered json id t (schedule_repo_index json configured fate req t)
unfolding schedule_repo_index
answered_request-Delivered json configured fate req t id q =
    stop-Answered (not configured) json t unavailable _
      (stop-Answered (not (is_valid_type req.kind)) json t invalid_kind _ (
        stop-Answered (leb_ℤ req.org_id (pos 0) || leb_ℤ req.repo_id (pos 0)) json t missing_ids _ (
          stop-Answered (not fate.loading) json t load_error _
            (for_repo-Answered json fate req t (find_first (is_schedulable t req) t.repos)))))
      id q
