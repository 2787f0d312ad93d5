-- ===== src/Schedule/Twice.antt =====
-- Two requests whose INSERT reads the same snapshot, as two at one time do.
use mathlib.Core.List.{mem-cons_self}
use mathlib.Core.Path.{subst}
use codeintel.Base.{
  ◌≡◌, sym, ap, ◌∙◌, refl, inl, inr, Bool, true, false, not, ◌&&◌, ◌||◌, Option, none, some, List,
  [], ◌∷◌, ◌++◌, keep, Text, text_eq, text_eq_self, trim_space, trim_space-trim_space, trim_prefix,
  is_empty, contains_string, contains-keep, contains-dedup_from, dedup_from, if◌then◌else◌,
  Bool-cases, Result-cases, Result, ok, err, ok-injective, find_first, arith,
}
use codeintel.Base.Int.{pos, leb_ℤ, eqb_ℤ_iff}
use codeintel.Leases.{Answer, done, refused, lost}
use codeintel.Schedule.{
  IndexJob, RepoName, Tables, Fate, ScheduleError, heads, scheduler_ref_candidates,
}
use codeintel.Schedule.RepoIndex.{TaskJson, is_valid_type, marshal_task}
use codeintel.Schedule.Index.{
  RepoScheduleRequest, is_schedulable, is_rival, refs_meet, existing_job, pending_job,
  answer_insert, answer_enqueue, insert_pending_repo_index_job, for_repo, send_index_task,
  insert_and_send, schedule_repo_index, task_payload,
}
use codeintel.Schedule.Exclusive.{IsExclusive}
use codeintel.Schedule.Races.{grown, job_of, schedule-Adds, unseen_rival_doubled}

-- What a request needs beside its luck.
abbrev Admitted : Bool → List IndexJob → RepoScheduleRequest → Tables → Type 0
Admitted configured snapshot req t =
    (not configured ≡ false)
    × (not (is_valid_type req.kind) ≡ false)
    × ((leb_ℤ req.org_id (pos 0) || leb_ℤ req.repo_id (pos 0)) ≡ false)
    × (existing_job snapshot req.repo_id (trim_space req.ref) ≡ none)
    × ((r : RepoName) × (find_first (is_schedulable t req) t.repos ≡ some r))

inserted_none {ℓ} :
    {A : Type ℓ} (answer : Answer) (before after : Tables) (a b : A)
    → (answer_insert answer before after a).1 ≡ ok b
    → a ≡ b
unfolding answer_insert
inserted_none done before after a b h = ok-injective h
inserted_none refused before after a b h = cc h
inserted_none lost before after a b h = cc h

inserted_done {ℓ} :
    {A : Type ℓ} (answer : Answer) (before after : Tables) (a : A)
    → answer ≡ done
    → (answer_insert answer before after a).1 ≡ ok a
unfolding answer_insert
inserted_done done before after a h = refl
inserted_done refused before after a h = cc h
inserted_done lost before after a h = cc h

enqueue_done :
    (answer : Answer) (fate : Fate) (t : Tables)
    → answer ≡ done
    → (answer_enqueue answer fate t).1 ≡ ok fate.job_id
unfolding answer_enqueue
enqueue_done done fate t h = refl
enqueue_done refused fate t h = cc h
enqueue_done lost fate t h = cc h

none_found :
    (json : TaskJson) (fate : Fate) (req : RepoScheduleRequest) (name : Text) (t : Tables)
    (id : Text)
    → (insert_and_send json fate req name t).1 ≡ ok id
    → existing_job fate.snapshot req.repo_id (trim_space req.ref) ≡ none
unfolding insert_and_send insert_pending_repo_index_job
none_found json fate req name t id h =
    let ref = trim_space req.ref in
    let inserted = insert_pending_repo_index_job fate req.repo_id req.kind ref t in
    elim (Result-cases inserted.1) [
      | inr (e, q) ↦ cc (rw (insert_and_send, q) at h)
      | inl (some k, q) ↦ cc (rw (insert_and_send, q) at h)
      | inl (none, q) ↦
          inserted_none fate.inserting t _ (existing_job fate.snapshot req.repo_id ref) none q
    ]

passed :
    (bad : Bool) (t : Tables) (e : ScheduleError) (x : Tables × Result ScheduleError Text)
    (id : Text)
    → (if bad then (t, err e) else x).1 ≡ ok id
    → (bad ≡ false) × (x.1 ≡ ok id)
passed true t e x id h = cc h
passed false t e x id h = (refl, h)

passes :
    (bad : Bool) (t : Tables) (e : ScheduleError) (x : Tables × Result ScheduleError Text)
    (id : Text)
    → bad ≡ false
    → x.1 ≡ ok id
    → (if bad then (t, err e) else x).1 ≡ ok id
passes true t e x id h k = cc h
passes false t e x id h k = k

for_repo-ok :
    (json : TaskJson) (fate : Fate) (req : RepoScheduleRequest) (t : Tables)
    (found : Option RepoName) (id : Text)
    → (for_repo json fate req t found).1 ≡ ok id
    → (r : RepoName) × (found ≡ some r) × ((insert_and_send json fate req r.name t).1 ≡ ok id)
unfolding for_repo
for_repo-ok json fate req t none id h = cc h
for_repo-ok json fate req t (some r) id h = (r, refl, h)

answered-Admitted :
    (json : TaskJson) (configured : Bool) (fate : Fate) (req : RepoScheduleRequest) (t : Tables)
    (id : Text)
    → (schedule_repo_index json configured fate req t).1 ≡ ok id
    → Admitted configured fate.snapshot req t
unfolding schedule_repo_index
answered-Admitted json configured fate req t id h =
    let (a, h1) = passed (not configured) t _ _ id h in
    let (b, h2) = passed (not (is_valid_type req.kind)) t _ _ id h1 in
    let (c, h3) = passed (leb_ℤ req.org_id (pos 0) || leb_ℤ req.repo_id (pos 0)) t _ _ id h2 in
    let (d, h4) = passed (not fate.loading) t _ _ id h3 in
    let (r, e, sent) =
      for_repo-ok json fate req t (find_first (is_schedulable t req) t.repos) id h4 in
    (a, b, c, none_found json fate req r.name t id sent, (r, e))

sent_ok :
    (json : TaskJson) (fate : Fate) (req : RepoScheduleRequest) (name : Text) (t : Tables)
    → not (is_valid_type req.kind) ≡ false
    → (leb_ℤ req.org_id (pos 0) || leb_ℤ req.repo_id (pos 0)) ≡ false
    → fate.enqueueing ≡ done
    → (send_index_task json fate req name t).1 ≡ ok fate.job_id
unfolding send_index_task marshal_task
sent_ok json fate req name t b c sends =
    let p = task_payload req fate.job_id name in
    let valid : is_valid_type req.kind ≡ true = ground (arith, b) in
    let owned : leb_ℤ req.org_id (pos 0) ≡ false = ground (arith, c) in
    let encoded : marshal_task json p ≡ ok (json.encode p) = rw (marshal_task, valid, owned) refl in
    rw (send_index_task, encoded) (enqueue_done fate.enqueueing fate _ sends)

insert_and_send-ok :
    (json : TaskJson) (fate : Fate) (req : RepoScheduleRequest) (name : Text) (t : Tables)
    → not (is_valid_type req.kind) ≡ false
    → (leb_ℤ req.org_id (pos 0) || leb_ℤ req.repo_id (pos 0)) ≡ false
    → fate.inserting ≡ done
    → fate.enqueueing ≡ done
    → existing_job fate.snapshot req.repo_id (trim_space req.ref) ≡ none
    → (insert_and_send json fate req name t).1 ≡ ok fate.job_id
unfolding insert_and_send insert_pending_repo_index_job
insert_and_send-ok json fate req name t b c inserts sends found =
    let ref = trim_space req.ref in
    let inserted = insert_pending_repo_index_job fate req.repo_id req.kind ref t in
    let q : inserted.1 ≡ ok none =
      inserted_done fate.inserting t _ (existing_job fate.snapshot req.repo_id ref) inserts
      ∙ ap ok found in
    rw (insert_and_send, q) (sent_ok json fate req name inserted.0 b c sends)

-- With a database and a queue that answer, nothing else is needed.
schedule-ok :
    (json : TaskJson) (configured : Bool) (fate : Fate) (req : RepoScheduleRequest) (t : Tables)
    → not fate.loading ≡ false
    → fate.inserting ≡ done
    → fate.enqueueing ≡ done
    → Admitted configured fate.snapshot req t
    → (schedule_repo_index json configured fate req t).1 ≡ ok fate.job_id
unfolding schedule_repo_index for_repo
schedule-ok json configured fate req t loads inserts sends (a, b, c, found, (r, e)) =
    passes (not configured) t _ _ fate.job_id a (
      passes (not (is_valid_type req.kind)) t _ _ fate.job_id b (
        passes (leb_ℤ req.org_id (pos 0) || leb_ℤ req.repo_id (pos 0)) t _ _ fate.job_id c (
          passes (not fate.loading) t _ _ fate.job_id loads (
            subst (λ (o : Option RepoName). (for_repo json fate req t o).1 ≡ ok fate.job_id) (sym e)
              (insert_and_send-ok json fate req r.name t b c inserts sends found)))))

listed_first :
    (ref first : Text) (others : List Text)
    → first ≡ ref
    → is_empty ref ≡ false
    → contains_string (dedup_from [] (keep (λ s. not (is_empty s)) (first ∷ others))) ref ≡ true
unfolding contains_string
listed_first ref first others same h =
    contains-dedup_from [] (keep (λ s. not (is_empty s)) (first ∷ others)) ref
    ∙ rw (contains-keep (λ s. not (is_empty s)) (first ∷ others) ref, h, same, text_eq_self ref)
        refl

otherwise_listed :
    (c : Bool) (xs ys : List Text) (ref : Text)
    → c ≡ false
    → contains_string ys ref ≡ true
    → contains_string (if c then xs else ys) ref ≡ true
otherwise_listed true xs ys ref h k = cc h
otherwise_listed false xs ys ref h k = k

own_ref :
    (ref : Text)
    → trim_space ref ≡ ref
    → is_empty ref ≡ false
    → contains_string (scheduler_ref_candidates ref) ref ≡ true
unfolding scheduler_ref_candidates
own_ref ref trimmed h =
    let bare = trim_space ref in
    let stripped = trim_prefix bare heads in
    let other =
      if not (text_eq stripped bare) && not (is_empty (trim_space stripped))
      then stripped
      else heads ++ bare in
    otherwise_listed (is_empty (trim_space ref)) [] _ ref (ap is_empty trimmed ∙ h) (
      listed_first ref (trim_space (trim_space ref)) (trim_space other ∷ [])
        (ap trim_space trimmed ∙ trimmed) h)

ref_meets_itself :
    (ref : Text)
    → trim_space ref ≡ ref
    → refs_meet ref (if is_empty ref then none else some ref) ≡ true
unfolding refs_meet
ref_meets_itself ref trimmed = elim (Bool-cases (is_empty ref)) [
  | inl e ↦ rw e refl
  | inr e ↦ rw (e, own_ref ref trimmed e) (ground (arith, e))
]

own_job_rival :
    (fate : Fate) (req : RepoScheduleRequest)
    → is_rival req.repo_id (trim_space req.ref) (job_of fate req) ≡ true
unfolding is_rival pending_job
own_job_rival fate req =
    rw ((eqb_ℤ_iff req.repo_id req.repo_id).1 refl)
      (ref_meets_itself (trim_space req.ref) (trim_space-trim_space req.ref))

-- If a request answered with an id, then the same request made again, whose INSERT reads the same
-- snapshot of the index jobs, and whose look-up, INSERT and task are answered, answers with its own id
-- as well, and leaves an active job of the repository with a rival among those before it.
pub racing_requests_doubled :
    (json : TaskJson) (configured : Bool) (first second : Fate) (req : RepoScheduleRequest)
    (t : Tables) (id : Text)
    → (schedule_repo_index json configured first req t).1 ≡ ok id
    → second.snapshot ≡ first.snapshot
    → second.loading ≡ true
    → second.inserting ≡ done
    → second.enqueueing ≡ done
    → let after = (schedule_repo_index json configured first req t).0 in
      ((schedule_repo_index json configured second req after).1 ≡ ok second.job_id)
      × (¬ IsExclusive (schedule_repo_index json configured second req after).0.index_jobs)
unfolding is_schedulable
racing_requests_doubled json configured first second req t id answer same loads inserts sends =
    let (queued, after) = schedule-Adds json configured first req t id answer in
    let (a, b, c, found, (r, e)) = answered-Admitted json configured first req t id answer in
    let twice =
      schedule-ok json configured second req (grown (job_of first req) queued t) (ap not loads)
        inserts sends
        (
          a,
          b,
          c,
          ap (λ js. existing_job js req.repo_id (trim_space req.ref)) same ∙ found,
          (r, e),
        ) in
    rw after (
      twice,
      unseen_rival_doubled json configured second req (grown (job_of first req) queued t)
          second.job_id (job_of first req) mem-cons_self (own_job_rival first req) twice,
    )
