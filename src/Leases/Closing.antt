-- ===== src/Leases/Closing.antt =====
-- A subjob that fails for good closes its job: nothing of the job waits, and no call runs for it.
use mathlib.Core.Path.{subst}
use mathlib.Core.Option.{some-injective}
use codeintel.Base.{
  All-updated, ◌≡◌, refl, sym, ap, ◌∙◌, inl, inr, Bool, true, false, ◌&&◌, some, List, [], ◌∷◌, ℕ,
  All, All-map, All-intro, arith, Text, text_eq, exists_in, Bool-cases, Result-cases, update,
  Result, ok, err,
}
use codeintel.Base.Int.{eqb_ℤ}
use codeintel.Leases.{
  Row, Job, Repo, Store, LeaseError, missing_holder, Answer, done, refused, lost, respond,
  is_waiting, is_failed_status, is_parent, parent_runs, update_row,
}
use codeintel.Leases.Claims.{held_by, may_finish, lacks_holder}
use codeintel.Leases.Failures.{
  normalize_failure, failure_status, failed_row, fail_row, mark_failed, then_fail_parent,
  fail_parent, failed_subjob, is_dependent, is_failing, cancel_row, fail_job, joined,
}
use codeintel.Leases.Keys.{IsKeyed}
use codeintel.Leases.Rows.{row_of, row_of-id, For, met, not_met, row_of-first, row_of-later}
use codeintel.Leases.Outcomes.{update_row-missed, update_row-won, guard-passed}

row_of-exists_in :
    (id : Text) (q : Row → Bool) (xs : List Row) (r : Row)
    → row_of id xs ≡ some r
    → q r ≡ true
    → exists_in q xs ≡ true
unfolding exists_in row_of
row_of-exists_in id q [] r h k = cc h
row_of-exists_in id q (x ∷ xs) r h k = elim (Bool-cases (text_eq x.input.id id)) [
  | inl e ↦
      let hit : q x ≡ true =
        subst (λ z. q z ≡ true) (some-injective r x (sym h ∙ row_of-first id x xs e)) k in
      rw hit refl
  | inr e ↦
      let rest = row_of-exists_in id q xs r (sym (row_of-later id x xs e) ∙ h) k in
      ground (arith, rest)
]

exists_in-none {ℓ} :
    {A : Type ℓ} (q : A → Bool) (xs : List A) → All (λ x. q x ≡ false) xs → exists_in q xs ≡ false
unfolding exists_in
exists_in-none q [] h = refl
exists_in-none q (x ∷ xs) h = rw h.0 (exists_in-none q xs h.1)

-- The jobs of a row do not run.
abbrev ClosedFor : Row → List Job → Type 0
ClosedFor r jobs = All (λ (j : Job). is_parent r j ≡ true → j.in_progress ≡ false) jobs

ClosedFor-parent_runs : (s : Store) (r : Row) → ClosedFor r s.jobs → parent_runs s r ≡ false
unfolding parent_runs
ClosedFor-parent_runs s r h = exists_in-none _ s.jobs (
    All-map (λ (j : Job). is_parent r j ≡ true → j.in_progress ≡ false)
      (λ (j : Job).
        (is_parent r j
          && (j.is_index && j.in_progress)
          && exists_in (λ (o : Repo). eqb_ℤ o.id j.repo_id && eqb_ℤ o.org_id r.input.org_id)
              s.repos)
        ≡ false)
      s.jobs
      (λ j k. elim (Bool-cases (is_parent r j)) [
        | inl e ↦ let q = k e in rw (e, q) (ground arith)
        | inr e ↦ rw e refl
      ])
      h)

-- No row of the job but the failed one waits.
abbrev pub NoneWaits : Text → Text → List Row → Type 0
NoneWaits id job rows =
    All
      (λ (y : Row).
        text_eq y.input.repo_indexing_job_id job ≡ true
        → text_eq y.input.id id ≡ false
        → is_waiting y.status ≡ false)
      rows

NoneWaits-canceled :
    (id message : Text) (now : ℕ) (rows : List Row) (u : Row)
    → row_of id rows ≡ some u
    → is_failed_status u.status ≡ true
    → NoneWaits id u.input.repo_indexing_job_id
        (update (is_dependent id rows) (cancel_row now message) rows)
unfolding cancel_row is_dependent
NoneWaits-canceled id message now rows u found h =
    let own = row_of-id id rows u found in
    All-updated _ (is_dependent id rows) (cancel_row now message) rows (λ y same other. refl)
      (All-intro _ rows (λ y miss same other.
        let k =
          row_of-exists_in id
            (λ (f : Row).
              failed_subjob id f
              && text_eq y.input.repo_indexing_job_id f.input.repo_indexing_job_id)
            rows u found (rw (own, h, same) refl) in
        ground (arith, miss, k, other)))

ClosedFor-failed :
    (id message : Text) (now : ℕ) (rows : List Row) (jobs : List Job) (u : Row)
    → row_of id rows ≡ some u
    → is_failed_status u.status ≡ true
    → ClosedFor u (update (is_failing id rows) (fail_job now message) jobs)
unfolding fail_job is_failing update
ClosedFor-failed id message now rows [] u found h = tt
ClosedFor-failed id message now rows (j ∷ jobs) u found h = (
  elim (Bool-cases (is_failing id rows j)) [
    | inl e ↦ rw e (λ _. refl)
    | inr e ↦ rw e (λ k.
        let q =
          row_of-exists_in id (λ f. failed_subjob id f && is_parent f j) rows u found
            (rw (row_of-id id rows u found, h, k) refl) in
        ground (arith, e, q))
  ],
  ClosedFor-failed id message now rows jobs u found h,
)

abbrev Closes : Text → Row → Store → Type 0
Closes id u s = NoneWaits id u.input.repo_indexing_job_id s.subjobs × ClosedFor u s.jobs

fail_parent-Closes :
    (answer : Answer) (now : ℕ) (id code message : Text) (s : Store) (u : Row)
    → row_of id s.subjobs ≡ some u
    → is_failed_status u.status ≡ true
    → (fail_parent answer now id code message s).1 ≡ ok tt
    → Closes id u (fail_parent answer now id code message s).0
unfolding fail_parent respond
fail_parent-Closes done now id code message s u found h k = (
  NoneWaits-canceled id (joined code message) now s.subjobs u found h,
  ClosedFor-failed id (joined code message) now s.subjobs s.jobs u found h,
)
fail_parent-Closes refused now id code message s u found h k = cc k
fail_parent-Closes lost now id code message s u found h k = cc k

then_fail_parent-Closes :
    (answer : Answer) (now : ℕ) (id code message : Text) (x : Store × Result LeaseError Bool)
    (u : Row)
    → (then_fail_parent answer now id code message x).1 ≡ ok true
    → row_of id x.0.subjobs ≡ some u
    → is_failed_status u.status ≡ true
    → Closes id u (then_fail_parent answer now id code message x).0
unfolding then_fail_parent
then_fail_parent-Closes answer now id code message (s, err e) u h found k = cc h
then_fail_parent-Closes answer now id code message (s, ok false) u h found k = cc h
then_fail_parent-Closes answer now id code message (s, ok true) u h found k =
    elim (Result-cases (fail_parent answer now id code message s).1) [
      | inr (e, q) ↦ cc (h, q)
      | inl (_, q) ↦ fail_parent-Closes answer now id code message s u found k q
    ]

then_fail_parent-passed :
    (answer : Answer) (now : ℕ) (id code message : Text) (x : Store × Result LeaseError Bool)
    → (then_fail_parent answer now id code message x).1 ≡ ok true
    → x.1 ≡ ok true
unfolding then_fail_parent
then_fail_parent-passed answer now id code message (s, err e) h = cc h
then_fail_parent-passed answer now id code message (s, ok false) h = cc h
then_fail_parent-passed answer now id code message (s, ok true) h = refl

may_finish-For :
    (id owner attempt_id : Text) (s : Store) (now : ℕ)
    → For id (may_finish id owner attempt_id s now)
unfolding may_finish held_by
may_finish-For id owner attempt_id s now y h = ground arith

-- A statement for one id that answered true updated the row that was found.
update_row-found :
    (answer : Answer) (id : Text) (p : Row → Bool) (f : Row → Row) (s : Store) (r : Row)
    → For id p
    → IsKeyed s.subjobs
    → row_of id s.subjobs ≡ some r
    → text_eq (f r).input.id id ≡ true
    → (update_row answer p f s).1 ≡ ok true
    → row_of id (update_row answer p f s).0.subjobs ≡ some (f r)
update_row-found answer id p f s r one keyed found same won = elim (Bool-cases (p r)) [
  | inr miss ↦
      absurd
        ((update_row-missed answer p f s (not_met id p s.subjobs r one keyed found miss)).1 won)
  | inl hit ↦
      ap (λ (x : Store). row_of id x.subjobs) (update_row-won answer p f s won)
      ∙ (met id p f s.subjobs r one keyed found hit same).1
]

-- If the ids of the subjobs are unique and `MarkFailed` answers true for a row that it makes FAILED,
-- then no other row of the row's job waits any longer, and the row has no INDEX job in progress, which
-- is what every claim, heartbeat and finish of it demands.
pub failure_closes_job :
    (answer closing : Answer) (now : ℕ) (id owner attempt_id error_code error_message : Text)
    (s : Store) (r : Row)
    → IsKeyed s.subjobs
    → row_of id s.subjobs ≡ some r
    → is_failed_status (failure_status (normalize_failure error_code error_message).1 r) ≡ true
    → (mark_failed answer closing now id owner attempt_id error_code error_message s).1 ≡ ok true
    → NoneWaits id r.input.repo_indexing_job_id
        (mark_failed answer closing now id owner attempt_id error_code error_message s).0.subjobs
      × parent_runs
          (mark_failed answer closing now id owner attempt_id error_code error_message s).0
          r
        ≡ false
unfolding mark_failed failed_row fail_row
failure_closes_job answer closing now id owner attempt_id error_code error_message s r keyed found h
      won =
    let (code, message) = normalize_failure error_code error_message in
    let p = may_finish id owner attempt_id s now in
    let f = failed_row now code message in
    let x = update_row answer p f s in
    let all = then_fail_parent closing now id code message x in
    let passed : mark_failed answer closing now id owner attempt_id error_code error_message s
        ≡ all =
      guard-passed (lacks_holder id owner attempt_id) s missing_holder all true won in
    let ended : all.1 ≡ ok true =
      sym (ap (λ (z : Store × Result LeaseError Bool). z.1) passed) ∙ won in
    let after =
      update_row-found answer id p f s r (may_finish-For id owner attempt_id s now) keyed found
        (row_of-id id s.subjobs r found)
        (then_fail_parent-passed closing now id code message x ended) in
    let (waits, closed) =
      then_fail_parent-Closes closing now id code message x (f r) ended after h in
    (
      subst
          (λ (z : Store × Result LeaseError Bool).
            NoneWaits id r.input.repo_indexing_job_id z.0.subjobs)
          (sym passed) waits,
      subst (λ (z : Store × Result LeaseError Bool). parent_runs z.0 r ≡ false) (sym passed)
          (ClosedFor-parent_runs all.0 r closed),
    )
