-- ===== src/Schedule/Races.antt =====
-- What a request does that does not see the job of another.
use mathlib.Core.List.{Mem}
use mathlib.Core.Path.{subst}
use codeintel.Base.{
  ◌≡◌, ap, ◌∙◌, inl, inr, Bool, true, false, not, ◌||◌, Option, none, some, List, ◌∷◌, refl, All,
  All-mem, Bool_eq-prop, Text, trim_space, if◌then◌else◌, Result-cases, Result, ok, err, find_first,
}
use codeintel.Base.Int.{pos, leb_ℤ}
use codeintel.Schedule.{
  IndexJob, RepoName, Tables, Fate, ScheduleError, QueuedTask, unavailable, invalid_kind,
  missing_ids, load_error,
}
use codeintel.Schedule.RepoIndex.{TaskJson, is_valid_type, marshal_task}
use codeintel.Schedule.Index.{
  RepoScheduleRequest, is_schedulable, is_rival, existing_job, pending_job,
  insert_pending_repo_index_job, for_repo, send_index_task, insert_and_send, schedule_repo_index,
  task_payload,
}
use codeintel.Schedule.Exclusive.{IsExclusive, pending_job-ref}
use codeintel.Schedule.Outcomes.{inserted_job, answer_enqueue-ok, as_task}

-- The job that a request adds.
abbrev pub job_of : Fate → RepoScheduleRequest → IndexJob
job_of fate req = pending_job fate req.repo_id req.kind (trim_space req.ref)

-- The tables with a job before the others, and these tasks.
abbrev pub grown : IndexJob → List QueuedTask → Tables → Tables
grown j queued t = record t { index_jobs = j ∷ t.index_jobs; queued = queued }

-- An answer with an id means that the job stands before the others, and that nothing else changed but
-- the queue.
abbrev pub Adds : Fate → RepoScheduleRequest → Tables → Tables × Result ScheduleError Text → Type 0
Adds fate req t x =
    (id : Text)
    → x.1 ≡ ok id
    → (queued : List QueuedTask) × (x.0 ≡ grown (job_of fate req) queued t)

send-Adds :
    (json : TaskJson) (fate : Fate) (req : RepoScheduleRequest) (name : Text) (t : Tables)
    → (id : Text) → (send_index_task json fate req name t).1 ≡ ok id
    → (queued : List QueuedTask) × ((send_index_task json fate req name t).0
        ≡ record t { queued = queued })
unfolding send_index_task
send-Adds json fate req name t id =
    elim (Result-cases (marshal_task json (task_payload req fate.job_id name))) [
      | inr (e, k) ↦ rw (send_index_task, k) (λ h. cc h)
      | inl (raw, k) ↦
          rw (send_index_task, k)
            (λ h. (
              as_task raw ∷ t.queued,
              (answer_enqueue-ok fate.enqueueing fate (as_task raw) t id h).1,
            ))
    ]

insert_and_send-Adds :
    (json : TaskJson) (fate : Fate) (req : RepoScheduleRequest) (name : Text) (t : Tables)
    → Adds fate req t (insert_and_send json fate req name t)
unfolding insert_and_send insert_pending_repo_index_job
insert_and_send-Adds json fate req name t =
    let ref = trim_space req.ref in
    let found = existing_job fate.snapshot req.repo_id ref in
    let inserted = insert_pending_repo_index_job fate req.repo_id req.kind ref t in
    elim (Result-cases inserted.1) [
      | inr (e, q) ↦ rw (insert_and_send, q) (λ id h. cc h)
      | inl (some k, q) ↦ rw (insert_and_send, q) (λ id h. cc h)
      | inl (none, q) ↦
          rw (insert_and_send, q)
            (λ id h.
              let (queued, after) = send-Adds json fate req name inserted.0 id h in
              (
                queued,
                after
                    ∙ ap (λ (z : Tables). record z { queued = queued })
                        (inserted_job fate.inserting found (job_of fate req) t q),
              ))
    ]

for_repo-Adds :
    (json : TaskJson) (fate : Fate) (req : RepoScheduleRequest) (t : Tables)
    (found : Option RepoName)
    → Adds fate req t (for_repo json fate req t found)
unfolding for_repo
for_repo-Adds json fate req t none = λ id h. cc h
for_repo-Adds json fate req t (some r) = insert_and_send-Adds json fate req r.name t

stop-Adds :
    (bad : Bool) (fate : Fate) (req : RepoScheduleRequest) (t : Tables) (e : ScheduleError)
    (x : Tables × Result ScheduleError Text)
    → Adds fate req t x
    → Adds fate req t (if bad then (t, err e) else x)
stop-Adds true fate req t e x k = λ id h. cc h
stop-Adds false fate req t e x k = k

pub schedule-Adds :
    (json : TaskJson) (configured : Bool) (fate : Fate) (req : RepoScheduleRequest) (t : Tables)
    → Adds fate req t (schedule_repo_index json configured fate req t)
unfolding schedule_repo_index
schedule-Adds json configured fate req t = stop-Adds (not configured) fate req t unavailable _ (
    stop-Adds (not (is_valid_type req.kind)) fate req t invalid_kind _ (
      stop-Adds (leb_ℤ req.org_id (pos 0) || leb_ℤ req.repo_id (pos 0)) fate req t missing_ids _ (
        stop-Adds (not fate.loading) fate req t load_error _
          (for_repo-Adds json fate req t (find_first (is_schedulable t req) t.repos)))))

new_job_rivals :
    (fate : Fate) (req : RepoScheduleRequest) (o : IndexJob) (js : List IndexJob)
    → Mem o js
    → is_rival req.repo_id (trim_space req.ref) o ≡ true
    → ¬ IsExclusive (job_of fate req ∷ js)
unfolding IsExclusive pending_job
new_job_rivals fate req o js m rival h =
    let ref = trim_space req.ref in
    let none_of =
      subst (λ z. All (λ x. is_rival req.repo_id z x ≡ false) js)
        (pending_job-ref fate req.repo_id req.kind ref) (h.0 refl) in
    let not_rival : is_rival req.repo_id ref o ≡ false =
      All-mem (λ x. is_rival req.repo_id ref x ≡ false) js o
        (λ x. Bool_eq-prop (is_rival req.repo_id ref x) false) none_of m in
    cc (rival, not_rival)

-- A request that answers with an id although the table has an active job of the repository for the
-- same branch, by either of its names, or where one of the two is for the whole repository, leaves
-- two such jobs active: its own has a rival among those before it.
pub unseen_rival_doubled :
    (json : TaskJson) (configured : Bool) (fate : Fate) (req : RepoScheduleRequest) (t : Tables)
    (id : Text) (o : IndexJob)
    → Mem o t.index_jobs
    → is_rival req.repo_id (trim_space req.ref) o ≡ true
    → (schedule_repo_index json configured fate req t).1 ≡ ok id
    → ¬ IsExclusive (schedule_repo_index json configured fate req t).0.index_jobs
unseen_rival_doubled json configured fate req t id o m rival answer h =
    new_job_rivals fate req o t.index_jobs m rival (
      subst (λ (z : Tables). IsExclusive z.index_jobs)
        (schedule-Adds json configured fate req t id answer).1 h)
