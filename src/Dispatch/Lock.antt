-- ===== src/Dispatch/Lock.antt =====
-- `RequeueExpiredAndDispatch`: all work is done between taking the lock and releasing it.
use mathlib.Core.Path.{subst}
use codeintel.Base.{
  ◌≡◌, sym, ◌≢◌, inl, inr, true, false, Option, none, some, List, [], ◌∷◌, ℕ, ◌+◌, Bool-cases, Text,
  if◌then◌else◌, ok, err, Result-cases, Option-cases,
}
use codeintel.Base.Int.{ℤ}
use codeintel.Subjobs.{Json}
use codeintel.Dispatch.{
  DispatchStats, no_stats, Services, DispatchError, store_error, DispatchableSubjob, Task,
  Uniqueness, make_task, send, send_row, enqueue, enqueue_rescue, is_duplicate,
}
use codeintel.Dispatch.Loop.{
  dispatch_rows, dispatch_ready, sent, stopped, rescued, queued_twice, rescue_failed,
}

-- Thirty seconds in nanoseconds.
abbrev pub lock_lease : ℕ
lock_lease = 30000000000

module _ {σ ε} {S : Type σ} {E : Type ε} (json : Json) (services : Services S E) where
  abbrev pub Outcome : Type (σ ⊔ ε)
  Outcome = S × DispatchStats × Option (DispatchError E)

  -- The body between the lock and the deferred release.
  unfoldable pub requeue_and_dispatch : ℕ → ℤ → ℤ → S → Outcome
  unfolding dispatch_ready
  requeue_and_dispatch now lease_limit dispatch_limit s =
      let (s1, requeued) = services.requeue_expired_leases now lease_limit s in
      elim requeued [
        | err e ↦ (s1, no_stats, some (store_error e))
        | ok expired ↦
            let (s2, reconciled) = services.reconcile_terminal_failures lease_limit s1 in
            elim reconciled [
              | err e ↦ (s2, no_stats, some (store_error e))
              | ok settled ↦
                  let (s3, stats, failed) = dispatch_ready json services dispatch_limit s2 in
                  elim failed [
                    | some e ↦ (s3, stats, some e)
                    | none ↦ (
                      s3,
                      record stats {
                        expired_requeued = expired;
                        terminal_failures_reconciled = settled;
                      },
                      none,
                    )
                  ]
            ]
      ]

  -- `owner` is the fresh name of `dispatchOwner`. The release's own error is dropped.
  unfoldable pub requeue_expired_and_dispatch : Text → ℕ → ℤ → ℤ → S → Outcome
  unfolding requeue_and_dispatch
  requeue_expired_and_dispatch owner now lease_limit dispatch_limit s =
      let (s1, locked) = services.try_acquire_dispatch_lock owner (now + lock_lease) s in
      elim locked [
        | err e ↦ (s1, no_stats, some (store_error e))
        | ok held ↦
            if held
            then (let (s2, stats, failed) =
                  requeue_and_dispatch now lease_limit dispatch_limit s1 in
                ((services.release_dispatch_lock owner s2).0, stats, failed))
            else (s1, no_stats, none)
      ]

-- Any two properties of states: one that holds while the lock is held, one while it is not.
module _ {σ ε κ} {S : Type σ} {E : Type ε} (json : Json) (services : Services S E)
    (Held Free : S → Type κ)
    (listing : (limit : ℤ) (s : S) → Held s → Held (services.list_dispatchable limit s).0)
    (requeueing : (now : ℕ) (limit : ℤ) (s : S)
      → Held s
      → Held (services.requeue_expired_leases now limit s).0)
    (reconciling : (limit : ℤ) (s : S)
      → Held s
      → Held (services.reconcile_terminal_failures limit s).0)
    (queueing : (task : Task) (s : S) → Held s → Held (services.enqueue_context task s).0) where
  send_row-Held :
      (u : Uniqueness) (row : DispatchableSubjob) (s : S)
      → Held s
      → Held (send_row json services u row s).0
  unfolding send_row send
  send_row-Held u row s h = elim (Result-cases (make_task {E = E} json row u)) [
    | inr (e, k) ↦ rw (send_row, k) h
    | inl (task, k) ↦ rw (send_row, k) (queueing task s h)
  ]

  moved : {a b : Outcome json services} → a ≡ b → Held b.0 → Held a.0
  moved p h = subst (λ (z : Outcome json services). Held z.0) (sym p) h

  dispatch_rows-Held :
      (rows : List DispatchableSubjob) (stats : DispatchStats) (s : S)
      → Held s
      → Held (dispatch_rows json services rows stats s).0
  unfolding dispatch_rows enqueue enqueue_rescue
  dispatch_rows-Held [] stats s h = h
  dispatch_rows-Held (row ∷ rest) stats s h =
      let s1 = (enqueue json services row s).0 in
      let h1 : Held s1 = send_row-Held _ row s h in
      let s2 = (enqueue_rescue json services row s1).0 in
      let h2 : Held s2 = send_row-Held _ row s1 h1 in
      elim (Option-cases (enqueue json services row s).1) [
        | inl k ↦ moved (sent json services row rest stats s k) (dispatch_rows-Held rest _ s1 h1)
        | inr (e, k) ↦ elim (Bool-cases (is_duplicate e)) [
          | inr d ↦ moved (stopped json services row rest stats s e k d) h1
          | inl d ↦ elim (Option-cases (enqueue_rescue json services row s1).1) [
            | inl r ↦
                moved (rescued json services row rest stats s e k d r)
                  (dispatch_rows-Held rest _ s2 h2)
            | inr (f, r) ↦ elim (Bool-cases (is_duplicate f)) [
              | inl g ↦
                  moved (queued_twice json services row rest stats s e k d f r g)
                    (dispatch_rows-Held rest _ s2 h2)
              | inr g ↦ moved (rescue_failed json services row rest stats s e k d f r g) h2
            ]
          ]
        ]
      ]

  dispatch_ready-Held : (limit : ℤ) (s : S) → Held s → Held (dispatch_ready json services limit s).0
  unfolding dispatch_ready
  dispatch_ready-Held limit s h = elim (Result-cases (services.list_dispatchable limit s).1) [
    | inr (e, k) ↦ rw (dispatch_ready, k) (listing limit s h)
    | inl (rows, k) ↦ rw (dispatch_ready, k) (dispatch_rows-Held rows _ _ (listing limit s h))
  ]

  requeue_and_dispatch-Held :
      (now : ℕ) (lease_limit dispatch_limit : ℤ) (s : S)
      → Held s
      → Held (requeue_and_dispatch json services now lease_limit dispatch_limit s).0
  unfolding requeue_and_dispatch
  requeue_and_dispatch-Held now lease_limit dispatch_limit s h =
      let s1 = (services.requeue_expired_leases now lease_limit s).0 in
      let h1 : Held s1 = requeueing now lease_limit s h in
      let s2 = (services.reconcile_terminal_failures lease_limit s1).0 in
      let h2 : Held s2 = reconciling lease_limit s1 h1 in
      let h3 = dispatch_ready-Held dispatch_limit s2 h2 in
      elim (Result-cases (services.requeue_expired_leases now lease_limit s).1) [
        | inr (e, k) ↦ rw (requeue_and_dispatch, k) h1
        | inl (expired, k) ↦
            elim (Result-cases (services.reconcile_terminal_failures lease_limit s1).1) [
              | inr (e, r) ↦ rw (requeue_and_dispatch, k, r) h2
              | inl (settled, r) ↦
                  elim (Option-cases (dispatch_ready json services dispatch_limit s2).2) [
                    | inl q ↦ rw (requeue_and_dispatch, k, r, q) h3
                    | inr (e, q) ↦ rw (requeue_and_dispatch, k, r, q) h3
                  ]
            ]
      ]

  -- If the lock is held once it was taken and free if it was not, neither the work on the store nor
  -- the queue gives it back, and releasing it frees it, then it is free after every dispatch,
  -- whichever step failed.
  pub dispatch_frees_lock :
      (owner : Text) (now : ℕ) (lease_limit dispatch_limit : ℤ) (s : S)
      → ((t : S) → Held t → Free (services.release_dispatch_lock owner t).0)
      → ((services.try_acquire_dispatch_lock owner (now + lock_lease) s).1 ≡ ok true
          → Held (services.try_acquire_dispatch_lock owner (now + lock_lease) s).0)
      → ((services.try_acquire_dispatch_lock owner (now + lock_lease) s).1 ≢ ok true
          → Free (services.try_acquire_dispatch_lock owner (now + lock_lease) s).0)
      → Free (requeue_expired_and_dispatch json services owner now lease_limit dispatch_limit s).0
  unfolding requeue_expired_and_dispatch
  dispatch_frees_lock owner now lease_limit dispatch_limit s releasing taken refused =
      elim (Result-cases (services.try_acquire_dispatch_lock owner (now + lock_lease) s).1) [
        | inr (e, k) ↦ rw (requeue_expired_and_dispatch, k) (refused (λ q. cc (q, k)))
        | inl (true, k) ↦
            rw (requeue_expired_and_dispatch, k)
              (releasing _ (requeue_and_dispatch-Held now lease_limit dispatch_limit _ (taken k)))
        | inl (false, k) ↦ rw (requeue_expired_and_dispatch, k) (refused (λ q. cc (q, k)))
      ]
