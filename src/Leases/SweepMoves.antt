-- ===== src/Leases/SweepMoves.antt =====
-- What the dispatcher's calls, which sweep over the rows, may do to them.
use codeintel.Base.{
  ◌≡◌, refl, Bool, true, not, ◌&&◌, Option, none, some, List, ℕ, All-map, All-intro, arith, Text,
  contains_string, text_eq, is_empty, update, keep, first, sort_by,
}
use codeintel.Base.Int.{ℤ, pos, leb_ℤ, pos_part}
use codeintel.Subjobs.{layer_scip}
use codeintel.Leases.{
  Row, Job, Store, missing_limit, missing_prefix, Answer, in_flight, is_semantic,
}
use codeintel.Leases.Failures.{cancel_row}
use codeintel.Leases.Requeues.{
  requeue_expired_leases, requeue_leases_for_owner_prefixes, requeue_row, requeue_status,
  parent_job, is_selected, is_expired, expired, rescued, clean_prefixes, ids_of, is_rescued,
  lease_first, rescue_first,
}
use codeintel.Leases.Reconcile.{
  reconcile_terminal_failures, reconciled_rows, skip_row, is_canceled_dependent, semantic_empty,
  is_semantic_empty, oldest_update, failed_jobs, failure_of, message_of,
}
use codeintel.Leases.Steps.{
  may_end, Step, requeues, cancels, drops, Moves, Moves-trans, Moves-update,
}
use codeintel.Leases.WorkerMoves.{respond-Moves, guard-Moves}
use codeintel.Leases.Keys.{IsKeyed, selected_passes}

requeue_status-end :
    (skip : Text → Bool) (job : Option Job) (r : Row) → may_end r (requeue_status skip job r) ≡ true
unfolding requeue_status
requeue_status-end skip none r = refl
requeue_status-end skip (some j) r = ground arith

-- Rows selected by a test that only rows in flight pass, requeued.
selected-Moves :
    (skip : Text → Bool) (s : Store) (clock : ℕ) (p : Row → Bool) (less : Row → Row → Bool) (n : ℕ)
    → IsKeyed s.subjobs
    → ((r : Row) → p r ≡ true → in_flight r.status ≡ true)
    → Moves s.subjobs (
        update
          (is_selected s (ids_of (first n (sort_by less (keep p s.subjobs)))))
          (requeue_row skip s clock)
          s.subjobs)
unfolding is_selected
selected-Moves skip s clock p less n keyed flying =
    let ids = ids_of (first n (sort_by less (keep p s.subjobs))) in
    Moves-update (is_selected s ids) (requeue_row skip s clock) s.subjobs (
      All-map (λ (r : Row). contains_string ids r.input.id ≡ true → p r ≡ true)
        (λ r. is_selected s ids r ≡ true → Step r (requeue_row skip s clock r)) s.subjobs
        (λ r found chosen.
          requeues r skip s clock (flying r (found (ground (arith, chosen))))
            (requeue_status-end skip (parent_job s r) r))
        (selected_passes p less n s.subjobs keyed))

pub requeue-Moves :
    (answer : Answer) (locked : Text → Bool) (clock now : ℕ) (limit : ℤ) (s : Store)
    → IsKeyed s.subjobs
    → Moves s.subjobs (requeue_expired_leases answer locked clock now limit s).0.subjobs
unfolding requeue_expired_leases expired is_expired
requeue-Moves answer locked clock now limit s keyed = guard-Moves _ s _ _ (
    respond-Moves answer s _ _ (
      selected-Moves is_semantic s clock (λ r. is_expired s now r && not (locked r.input.id))
        lease_first (pos_part limit) keyed (λ r h. ground (arith, h))))

pub rescue-Moves :
    (answer : Answer) (locked : Text → Bool) (prefixes : List Text) (now : ℕ) (limit : ℤ)
    (s : Store)
    → IsKeyed s.subjobs
    → Moves s.subjobs
        (requeue_leases_for_owner_prefixes answer locked prefixes now limit s).0.subjobs
unfolding requeue_leases_for_owner_prefixes rescued is_rescued
rescue-Moves answer locked prefixes now limit s keyed =
    guard-Moves (leb_ℤ limit (pos 0)) s missing_limit _ (
      guard-Moves (is_empty (clean_prefixes prefixes)) s missing_prefix _ (
        respond-Moves answer s _ _ (
          selected-Moves (λ l. text_eq l layer_scip) s now
            (λ r. is_rescued s (clean_prefixes prefixes) r && not (locked r.input.id)) rescue_first
            (pos_part limit) keyed (λ r h. ground (arith, h)))))

pub reconcile-Moves :
    (answer : Answer) (locked second : Text → Bool) (now : ℕ) (limit : ℤ) (s : Store)
    → IsKeyed s.subjobs
    → Moves s.subjobs (reconcile_terminal_failures answer locked second now limit s).0.subjobs
unfolding reconcile_terminal_failures reconciled_rows semantic_empty is_semantic_empty
    is_canceled_dependent
reconcile-Moves answer locked second now limit s keyed =
    let fs = failed_jobs s limit in
    let ids = semantic_empty locked s limit in
    let skipped_now : Row → Bool = λ r.
      contains_string ids r.input.id && not (is_canceled_dependent fs r && second r.input.id) in
    let message : Row → Text = λ r. message_of (failure_of fs r.input.repo_indexing_job_id) in
    guard-Moves _ s _ _ (
      respond-Moves answer s _ _ (
        Moves-trans s.subjobs (update skipped_now (skip_row now) s.subjobs) _
          (Moves-update skipped_now (skip_row now) s.subjobs (
            All-map
              (λ (r : Row).
                contains_string ids r.input.id ≡ true
                → (is_semantic_empty s r && not (locked r.input.id)) ≡ true)
              (λ r. skipped_now r ≡ true → Step r (skip_row now r)) s.subjobs
              (λ r found chosen.
                let k = found (ground (arith, chosen)) in drops r now (ground (arith, k)))
              (selected_passes (λ r. is_semantic_empty s r && not (locked r.input.id)) oldest_update
                (pos_part limit) s.subjobs keyed)))
          (Moves-update (is_canceled_dependent fs) (λ r. cancel_row now (message r) r)
            (update skipped_now (skip_row now) s.subjobs)
            (All-intro
              (λ r. is_canceled_dependent fs r ≡ true → Step r (cancel_row now (message r) r))
              (update skipped_now (skip_row now) s.subjobs)
              (λ r h. cancels r now (message r) (ground (arith, h)))))))
