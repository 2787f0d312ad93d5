-- ===== src/Schedule/Exclusive.antt =====
-- No two active jobs of a repository stand for the same work.
use mathlib.Core.Path.{subst}
use mathlib.Core.List.{Mem}
use codeintel.Base.{
  All-mem, Bool_eq-prop, ◌≡◌, ◌≢◌, refl, sym, inl, inr, Bool, true, false, not, ◌||◌, Option, none,
  some, List, [], ◌∷◌, ℕ, suc, All, keep, length, length-sort_by, sort_by, Text, trim_space,
  if◌then◌else◌, Bool-cases, Result-cases, Result, err, arith, update, find_first, All-update,
}
use codeintel.Base.Int.{ℤ, pos, leb_ℤ}
use codeintel.Leases.{Answer, done, refused, lost}
use codeintel.Schedule.{IndexJob, RepoName, Tables, Fate, ScheduleError, QueuedTask, is_active}
use codeintel.Schedule.RepoIndex.{TaskJson, is_valid_type, marshal_task}
use codeintel.Schedule.Index.{
  RepoScheduleRequest, is_schedulable, is_rival, newest_first, first_of, existing_job, pending_job,
  insert_pending_repo_index_job, enqueued, with_job, answer_insert, fail_pending, is_pending_job,
  unless_refused, answer_enqueue, for_repo, mark_repo_index_job_failed_after_enqueue_error,
  send_index_task, insert_and_send, schedule_repo_index, task_payload,
}

-- The ref of a job, empty for the whole repository.
abbrev pub ref_of : IndexJob → Text
ref_of j = elim j.ref [ none ↦ [] | some ref ↦ ref ]

-- A job, while it is active, has no rival among the jobs that were inserted before it.
unfoldable pub IsExclusive : List IndexJob → Type 0
unfolding is_rival
IsExclusive [] = Unit
IsExclusive (j ∷ js) =
    (is_active j.status ≡ true → All (λ o. is_rival j.repo_id (ref_of j) o ≡ false) js)
    × IsExclusive js

kept_none : (p : IndexJob → Bool) (xs : List IndexJob) → keep p xs ≡ [] → All (λ x. p x ≡ false) xs
kept_none p [] h = tt
kept_none p (x ∷ xs) h = elim (Bool-cases (p x)) [
  | inl e ↦ cc (rw e at h)
  | inr e ↦ (e, kept_none p xs (rw e at h))
]

no_first : (xs : List IndexJob) {n : ℕ} → length xs ≡ suc n → first_of xs ≢ none
no_first [] h e = omega (arith, h)
no_first (x ∷ xs) h e = cc e

sorted_none :
    (less : IndexJob → IndexJob → Bool) (xs : List IndexJob)
    → first_of (sort_by less xs) ≡ none
    → xs ≡ []
sorted_none less [] h = refl
sorted_none less (x ∷ xs) h =
    absurd (no_first (sort_by less (x ∷ xs)) (length-sort_by less (x ∷ xs)) h)

no_rivals :
    (jobs : List IndexJob) (repo_id : ℤ) (ref : Text)
    → existing_job jobs repo_id ref ≡ none
    → All (λ o. is_rival repo_id ref o ≡ false) jobs
unfolding existing_job
no_rivals jobs repo_id ref h =
    kept_none (is_rival repo_id ref) jobs
      (sorted_none newest_first (keep (is_rival repo_id ref) jobs) h)

-- The active jobs are in the snapshot.
abbrev pub Shown : List IndexJob → List IndexJob → Type 0
Shown snapshot jobs = All (λ j. is_active j.status ≡ true → Mem j snapshot) jobs

unseen_rivals :
    (snapshot jobs : List IndexJob) (repo_id : ℤ) (ref : Text)
    → Shown snapshot jobs
    → All (λ o. is_rival repo_id ref o ≡ false) snapshot
    → All (λ o. is_rival repo_id ref o ≡ false) jobs
unfolding is_rival
unseen_rivals snapshot [] repo_id ref shown h = tt
unseen_rivals snapshot (j ∷ js) repo_id ref shown h = (
  elim (Bool-cases (is_active j.status)) [
    | inl e ↦
        All-mem (λ o. is_rival repo_id ref o ≡ false) snapshot j
          (λ o. Bool_eq-prop (is_rival repo_id ref o) false) h (shown.0 e)
    | inr e ↦ ground (arith, e)
  ],
  unseen_rivals snapshot js repo_id ref shown.1 h,
)

pub pending_job-ref :
    (fate : Fate) (repo_id : ℤ) (kind ref : Text) → ref_of (pending_job fate repo_id kind ref) ≡ ref
unfolding pending_job
pending_job-ref fate repo_id kind [] = refl
pending_job-ref fate repo_id kind (c ∷ cs) = refl

with_job-IsExclusive :
    (found : Option IndexJob) (fate : Fate) (repo_id : ℤ) (kind ref : Text) (t : Tables)
    → existing_job fate.snapshot repo_id ref ≡ found
    → Shown fate.snapshot t.index_jobs
    → IsExclusive t.index_jobs
    → IsExclusive (with_job found (pending_job fate repo_id kind ref) t).index_jobs
unfolding with_job IsExclusive pending_job
with_job-IsExclusive (some j) fate repo_id kind ref t e shown h = h
with_job-IsExclusive none fate repo_id kind ref t e shown h = (
  λ _.
      subst (λ z. All (λ o. is_rival repo_id z o ≡ false) t.index_jobs)
        (sym (pending_job-ref fate repo_id kind ref))
        (unseen_rivals fate.snapshot t.index_jobs repo_id ref shown
          (no_rivals fate.snapshot repo_id ref e)),
  h,
)

answer_insert-IsExclusive {ℓ} :
    {A : Type ℓ} (answer : Answer) (t u : Tables) (a : A)
    → IsExclusive t.index_jobs
    → IsExclusive u.index_jobs
    → IsExclusive (answer_insert answer t u a).0.index_jobs
unfolding answer_insert
answer_insert-IsExclusive done t u a h k = k
answer_insert-IsExclusive refused t u a h k = h
answer_insert-IsExclusive lost t u a h k = k

insert-IsExclusive :
    (fate : Fate) (repo_id : ℤ) (kind ref : Text) (t : Tables)
    → Shown fate.snapshot t.index_jobs
    → IsExclusive t.index_jobs
    → IsExclusive (insert_pending_repo_index_job fate repo_id kind ref t).0.index_jobs
unfolding insert_pending_repo_index_job
insert-IsExclusive fate repo_id kind ref t shown h =
    let found = existing_job fate.snapshot repo_id ref in
    answer_insert-IsExclusive fate.inserting t _ found h
      (with_job-IsExclusive found fate repo_id kind ref t refl shown h)

-- A job that fails is no longer a rival.
failing-no_rival :
    (fate : Fate) (job_id : Text) (repo_id : ℤ) (ref : Text) (js : List IndexJob)
    → All (λ o. is_rival repo_id ref o ≡ false) js
    → All
        (λ o. is_rival repo_id ref o ≡ false)
        (update (is_pending_job job_id) (fail_pending fate) js)
unfolding is_rival fail_pending
failing-no_rival fate job_id repo_id ref js h =
    All-update (λ o. is_rival repo_id ref o ≡ false) (is_pending_job job_id) (fail_pending fate) js
      (λ x _ _. ground arith) h

failing-IsExclusive :
    (fate : Fate) (job_id : Text) (js : List IndexJob)
    → IsExclusive js
    → IsExclusive (update (is_pending_job job_id) (fail_pending fate) js)
unfolding IsExclusive update fail_pending
failing-IsExclusive fate job_id [] h = tt
failing-IsExclusive fate job_id (j ∷ js) h = (
  elim (Bool-cases (is_pending_job job_id j)) [
    | inl e ↦ rw e (λ q. cc q)
    | inr e ↦ rw e (λ q. failing-no_rival fate job_id j.repo_id (ref_of j) js (h.0 q))
  ],
  failing-IsExclusive fate job_id js h.1,
)

unless_refused-IsExclusive :
    (answer : Answer) (t u : Tables)
    → IsExclusive t.index_jobs
    → IsExclusive u.index_jobs
    → IsExclusive (unless_refused answer t u).index_jobs
unfolding unless_refused
unless_refused-IsExclusive done t u h k = k
unless_refused-IsExclusive refused t u h k = h
unless_refused-IsExclusive lost t u h k = k

mark-IsExclusive :
    (fate : Fate) (job_id : Text) (t : Tables)
    → IsExclusive t.index_jobs
    → IsExclusive (mark_repo_index_job_failed_after_enqueue_error fate job_id t).index_jobs
unfolding mark_repo_index_job_failed_after_enqueue_error
mark-IsExclusive fate job_id t h =
    unless_refused-IsExclusive fate.marking t _ h (failing-IsExclusive fate job_id t.index_jobs h)

enqueued-IsExclusive :
    (answer : Answer) (task : QueuedTask) (t : Tables)
    → IsExclusive t.index_jobs
    → IsExclusive (enqueued answer task t).index_jobs
enqueued-IsExclusive done task t h = h
enqueued-IsExclusive refused task t h = h
enqueued-IsExclusive lost task t h = h

answer_enqueue-IsExclusive :
    (answer : Answer) (fate : Fate) (t : Tables)
    → IsExclusive t.index_jobs
    → IsExclusive (answer_enqueue answer fate t).0.index_jobs
unfolding answer_enqueue
answer_enqueue-IsExclusive done fate t h = h
answer_enqueue-IsExclusive refused fate t h = mark-IsExclusive fate fate.job_id t h
answer_enqueue-IsExclusive lost fate t h = mark-IsExclusive fate fate.job_id t h

send-IsExclusive :
    (json : TaskJson) (fate : Fate) (req : RepoScheduleRequest) (name : Text) (t : Tables)
    → IsExclusive t.index_jobs
    → IsExclusive (send_index_task json fate req name t).0.index_jobs
unfolding send_index_task
send-IsExclusive json fate req name t h =
    elim (Result-cases (marshal_task json (task_payload req fate.job_id name))) [
      | inr (e, k) ↦ rw (send_index_task, k) (mark-IsExclusive fate fate.job_id t h)
      | inl (raw, k) ↦
          rw (send_index_task, k)
            (answer_enqueue-IsExclusive fate.enqueueing fate _
              (enqueued-IsExclusive fate.enqueueing _ t h))
    ]

insert_and_send-IsExclusive :
    (json : TaskJson) (fate : Fate) (req : RepoScheduleRequest) (name : Text) (t : Tables)
    → Shown fate.snapshot t.index_jobs
    → IsExclusive t.index_jobs
    → IsExclusive (insert_and_send json fate req name t).0.index_jobs
unfolding insert_and_send
insert_and_send-IsExclusive json fate req name t shown h =
    let inserted = insert_pending_repo_index_job fate req.repo_id req.kind (trim_space req.ref) t in
    let k = insert-IsExclusive fate req.repo_id req.kind (trim_space req.ref) t shown h in
    elim (Result-cases inserted.1) [
      | inr (e, q) ↦ rw (insert_and_send, q) k
      | inl (some j, q) ↦ rw (insert_and_send, q) k
      | inl (none, q) ↦ rw (insert_and_send, q) (send-IsExclusive json fate req name inserted.0 k)
    ]

stop-IsExclusive :
    (bad : Bool) (t : Tables) (e : ScheduleError) (x : Tables × Result ScheduleError Text)
    → IsExclusive t.index_jobs
    → IsExclusive x.0.index_jobs
    → IsExclusive (if bad then (t, err e) else x).0.index_jobs
stop-IsExclusive true t e x h k = h
stop-IsExclusive false t e x h k = k

found-IsExclusive :
    (json : TaskJson) (fate : Fate) (req : RepoScheduleRequest) (t : Tables)
    (found : Option RepoName)
    → Shown fate.snapshot t.index_jobs
    → IsExclusive t.index_jobs
    → IsExclusive (for_repo json fate req t found).0.index_jobs
unfolding for_repo
found-IsExclusive json fate req t none shown h = h
found-IsExclusive json fate req t (some r) shown h =
    insert_and_send-IsExclusive json fate req r.name t shown h

-- If no active job of a repository had a rival among those before it, that is another active job of
-- the repository for the same branch, by either of its names, or where one of the two is for the whole
-- repository, and the snapshot of the INSERT shows every active job, then no active job has a rival
-- among those before it after the request either, whatever else its fate.
pub schedule-IsExclusive :
    (json : TaskJson) (configured : Bool) (fate : Fate) (req : RepoScheduleRequest) (t : Tables)
    → All (λ j. is_active j.status ≡ true → Mem j fate.snapshot) t.index_jobs
    → IsExclusive t.index_jobs
    → IsExclusive (schedule_repo_index json configured fate req t).0.index_jobs
unfolding schedule_repo_index
schedule-IsExclusive json configured fate req t shown h =
    stop-IsExclusive (not configured) t _ _ h (
      stop-IsExclusive (not (is_valid_type req.kind)) t _ _ h (
        stop-IsExclusive (leb_ℤ req.org_id (pos 0) || leb_ℤ req.repo_id (pos 0)) t _ _ h (
          stop-IsExclusive (not fate.loading) t _ _ h (
            found-IsExclusive json fate req t (find_first (is_schedulable t req) t.repos) shown
              h))))
