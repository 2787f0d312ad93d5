-- ===== src/Leases/Dispatching.antt =====
-- The store as the dispatcher's: its lock keeps others out, and is given back.
use codeintel.Base.{
  ◌≡◌, ◌≢◌, refl, inl, inr, Bool, true, false, Option, none, some, ℕ, ◌+◌, ltb, arith, Text,
  text_eq, is_empty, Bool-cases, Result, ok, err,
}
use codeintel.Base.Int.{ℤ}
use codeintel.Subjobs.{Json}
use codeintel.Dispatch.{Services, Task, QueueError}
use codeintel.Dispatch.Lock.{requeue_expired_and_dispatch, dispatch_frees_lock, lock_lease}
use codeintel.Leases.{Store, LeaseError, Answer, done, refused, lost, respond}
use codeintel.Leases.Requeues.{requeue_expired_leases}
use codeintel.Leases.Reconcile.{reconcile_terminal_failures}
use codeintel.Leases.Listing.{list_dispatchable}
use codeintel.Leases.Locking.{may_lock, try_acquire_dispatch_lock, owns_lock, release_dispatch_lock}

-- The store with a lock row.
abbrev with_lock : Text → ℕ → Store → Store
with_lock owner until s = record s {
  dispatch_lock = some (record { owner = owner; expires_at = until });
}

lock_won :
    (answer : Answer) (now : ℕ) (owner : Text) (until : ℕ) (s : Store)
    → (try_acquire_dispatch_lock answer now owner until s).1 ≡ ok true
    → (try_acquire_dispatch_lock answer now owner until s).0 ≡ with_lock owner until s
unfolding try_acquire_dispatch_lock respond
lock_won done now owner until s h = ground arith
lock_won refused now owner until s h = ground arith
lock_won lost now owner until s h = ground arith

locked_out :
    (answer : Answer) (now : ℕ) (owner other : Text) (until until' : ℕ) (s : Store)
    → text_eq owner other ≡ false
    → ltb until now ≡ false
    → ((try_acquire_dispatch_lock answer now other until' (with_lock owner until s)).1 ≢ ok true)
      × ((try_acquire_dispatch_lock answer now other until' (with_lock owner until s)).0
          ≡ with_lock owner until s)
unfolding try_acquire_dispatch_lock respond may_lock
locked_out done now owner other until until' s apart live = ground arith
locked_out refused now owner other until until' s apart live = ground arith
locked_out lost now owner other until until' s apart live = ground arith

-- If an owner got the lock, another that asks before the lease ends does not get it, and the lock
-- stays as it is.
pub lock_excludes :
    (answer answer' : Answer) (now now' : ℕ) (owner other : Text) (until until' : ℕ) (s : Store)
    → (try_acquire_dispatch_lock answer now owner until s).1 ≡ ok true
    → text_eq owner other ≡ false
    → ltb until now' ≡ false
    → let held = (try_acquire_dispatch_lock answer now owner until s).0 in
      ((try_acquire_dispatch_lock answer' now' other until' held).1 ≢ ok true)
      × ((try_acquire_dispatch_lock answer' now' other until' held).0 ≡ held)
unfolding try_acquire_dispatch_lock respond may_lock
lock_excludes answer answer' now now' owner other until until' s won apart live =
    rw (lock_won answer now owner until s won)
      (locked_out answer' now' owner other until until' s apart live)

-- What the environment decides in one run: the statements' answers, the rows that others hold, and
-- the time of the database.
pub record Environment : Type 0 where
  pub listing : Answer
  pub requeueing : Answer
  pub reconciling : Answer
  pub acquiring : Answer
  pub releasing : Answer
  pub locked : Text → Bool
  pub second : Text → Bool
  pub clock : ℕ

abbrev pub error_of {ℓ} : {A : Type ℓ} → Result LeaseError A → Option LeaseError
error_of (ok _) = none
error_of (err e) = some e

-- The dispatcher's store beside a queue.
unfoldable pub store_services {ℓ} :
    {Q : Type ℓ}
    → Environment
    → (Task → Q → Q × Option QueueError)
    → Services (Store × Q) LeaseError
unfolding list_dispatchable requeue_expired_leases reconcile_terminal_failures
    try_acquire_dispatch_lock release_dispatch_lock
store_services env send = record {
  list_dispatchable =
      λ limit (s, q). let (s', answer) = list_dispatchable env.listing limit s in ((s', q), answer);
  requeue_expired_leases = λ now limit (s, q).
      let (s', answer) = requeue_expired_leases env.requeueing env.locked env.clock now limit s in
      ((s', q), answer);
  reconcile_terminal_failures = λ limit (s, q).
      let (s', answer) =
        reconcile_terminal_failures env.reconciling env.locked env.second env.clock limit s in
      ((s', q), answer);
  try_acquire_dispatch_lock = λ owner until (s, q).
      let (s', answer) = try_acquire_dispatch_lock env.acquiring env.clock owner until s in
      ((s', q), answer);
  release_dispatch_lock = λ owner (s, q).
      let (s', answer) = release_dispatch_lock env.releasing owner s in ((s', q), error_of answer);
  enqueue_context = λ task (s, q). let (q', failed) = send task q in ((s, q'), failed);
}

released :
    (owner : Text) (s : Store)
    → is_empty owner ≡ false
    → owns_lock owner (release_dispatch_lock done owner s).0 ≡ false
unfolding release_dispatch_lock owns_lock respond
released owner s h = elim (Bool-cases (owns_lock owner s)) [
  | inl e ↦ rw (release_dispatch_lock, h, e) refl
  | inr e ↦ rw (release_dispatch_lock, h, e) e
]

not_won :
    (answer : Answer) (now : ℕ) (owner : Text) (until : ℕ) (s : Store)
    → answer ≢ lost
    → owns_lock owner s ≡ false
    → (try_acquire_dispatch_lock answer now owner until s).1 ≢ ok true
    → owns_lock owner (try_acquire_dispatch_lock answer now owner until s).0 ≡ false
unfolding try_acquire_dispatch_lock respond
not_won done now owner until s a free h = elim (Bool-cases (is_empty owner)) [
  | inl e ↦ rw (try_acquire_dispatch_lock, e) free
  | inr e ↦ elim (Bool-cases (may_lock owner now s)) [
    | inl m ↦ absurd (h (rw (try_acquire_dispatch_lock, e, m) refl))
    | inr m ↦ rw (try_acquire_dispatch_lock, e, m) free
  ]
]
not_won refused now owner until s a free h = elim (Bool-cases (is_empty owner)) [
  | inl e ↦ rw (try_acquire_dispatch_lock, e) free
  | inr e ↦ rw (try_acquire_dispatch_lock, e) free
]
not_won lost now owner until s a free h = absurd (a refl)

-- If the owner's name is not empty and holds no lock, the answer to its request for the lock is not
-- lost and the release runs, then it holds no lock after a dispatch on this store, whatever the other
-- statements and the queue answer.
pub dispatch_leaves_no_lock {ℓ} :
    {Q : Type ℓ} (json : Json) (env : Environment) (send : Task → Q → Q × Option QueueError)
    (owner : Text) (now : ℕ) (lease_limit dispatch_limit : ℤ) (s : Store) (q : Q)
    → is_empty owner ≡ false
    → owns_lock owner s ≡ false
    → env.acquiring ≢ lost
    → env.releasing ≡ done
    → owns_lock owner
        (requeue_expired_and_dispatch json
          (store_services env send)
          owner
          now
          lease_limit
          dispatch_limit
          (s, q)).0.0
      ≡ false
unfolding store_services
dispatch_leaves_no_lock {Q} json env send owner now lease_limit dispatch_limit s q named free asked
      given =
    dispatch_frees_lock json (store_services env send) (λ _. Unit {0})
      (λ (x : Store × Q). owns_lock owner x.0 ≡ false) (λ limit x _. tt) (λ t limit x _. tt)
      (λ limit x _. tt) (λ task x _. tt) owner now lease_limit dispatch_limit (s, q)
      (λ x _. rw given (released owner x.0 named)) (λ _. tt)
      (not_won env.acquiring env.clock owner (now + lock_lease) s asked free)
