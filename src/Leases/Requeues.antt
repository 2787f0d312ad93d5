-- ===== src/Leases/Requeues.antt =====
-- `RequeueExpiredLeases` and `RequeueLeasesForOwnerPrefixes`: rows go back to the queue, or end.
use codeintel.Base.{
  Bool, true, false, not, ◌&&◌, ◌||◌, Option, none, some, List, map, keep, ℕ, ltb, is_empty,
  is_some, Text, text_eq, trim_space, contains_string, err, Result, if◌then◌else◌, exists_in,
  find_first, update, affected, first, sort_by, ◌==◌,
}
use codeintel.Base.Int.{ℤ, pos, leb_ℤ, pos_part}
use codeintel.Subjobs.{layer_scip}
use codeintel.Leases.{
  Status, failed, retrying, canceled, skipped, Row, Job, Store, LeaseError, missing_limit,
  missing_prefix, Answer, respond, in_flight, is_before, coalesce_ℕ, has_attempts, is_semantic,
  is_parent, is_open,
}
use codeintel.Leases.Patterns.{owner_like}
use codeintel.Leases.Failures.{completed_unless_retrying}

-- The job that a row is joined with.
unfoldable pub parent_job : Store → Row → Option Job
unfolding find_first
parent_job s r = find_first (is_parent r) s.jobs

-- The CASE of both statements; `skips` says of which layers a row out of attempts is skipped.
unfoldable pub requeue_status : (Text → Bool) → Option Job → Row → Status
requeue_status skips job r = elim job [
  | none ↦ canceled
  | some j ↦
      if not (is_open j)
      then canceled
      else if has_attempts r
      then retrying
      else if skips r.input.layer
      then skipped
      else failed
]

unfoldable pub requeue_row : (Text → Bool) → Store → ℕ → Row → Row
unfolding requeue_status parent_job
requeue_row skips s now r =
    let status = requeue_status skips (parent_job s r) r in
    record r {
      status = status;
      lease_owner = none;
      attempt_id = none;
      lease_expires_at = none;
      heartbeat_at = none;
      completed_at = completed_unless_retrying now status;
      updated_at = now;
    }

abbrev pub ids_of : List Row → List Text
ids_of rows = map (λ (r : Row). r.input.id) rows

-- UPDATE of the rows that a CTE selected, joined with their jobs.
unfoldable pub is_selected : Store → List Text → Row → Bool
unfolding parent_job contains_string
is_selected s ids r = contains_string ids r.input.id && is_some (parent_job s r)

-- ORDER BY "leaseExpiresAt" ASC
abbrev pub lease_first : Row → Row → Bool
lease_first a b = ltb (coalesce_ℕ a.lease_expires_at 0) (coalesce_ℕ b.lease_expires_at 0)

unfoldable pub is_expired : Store → ℕ → Row → Bool
unfolding parent_job
is_expired s now r =
    in_flight r.status && is_before r.lease_expires_at now && is_some (parent_job s r)

-- The ids of the CTE `expired`; `locked` are the rows that other transactions hold.
unfoldable pub expired : (Text → Bool) → Store → ℕ → ℤ → List Text
unfolding is_expired first sort_by
expired locked s now limit = ids_of (
    first (pos_part limit)
      (sort_by lease_first (keep (λ r. is_expired s now r && not (locked r.input.id)) s.subjobs)))

-- `clock` is the database's NOW().
unfoldable pub requeue_expired_leases :
    Answer → (Text → Bool) → ℕ → ℕ → ℤ → Store → Store × Result LeaseError ℕ
unfolding expired is_selected requeue_row respond update affected
requeue_expired_leases answer locked clock now limit s =
    if leb_ℤ limit (pos 0)
    then (s, err missing_limit)
    else (let ids = expired locked s now limit in
        respond answer s
          (record s {
            subjobs = update (is_selected s ids) (requeue_row is_semantic s clock) s.subjobs;
          })
          (affected (is_selected s ids) s.subjobs))

-- Which of two columns comes first, NULL before all others; equal ones leave it to the rest.
abbrev pub nulls_first : Option ℕ → Option ℕ → Bool → Bool
nulls_first none none rest = rest
nulls_first none (some _) rest = true
nulls_first (some _) none rest = false
nulls_first (some t) (some u) rest = ltb t u || (t == u && rest)

-- ORDER BY "leaseExpiresAt" ASC NULLS FIRST, "updatedAt" ASC
unfoldable pub rescue_first : Row → Row → Bool
rescue_first a b = nulls_first a.lease_expires_at b.lease_expires_at (ltb a.updated_at b.updated_at)

abbrev pub owned_like : List Text → Row → Bool
owned_like prefixes r = elim r.lease_owner [
  | none ↦ false
  | some owner ↦ exists_in (owner_like owner) prefixes
]

unfoldable pub is_rescued : Store → List Text → Row → Bool
unfolding parent_job owner_like exists_in
is_rescued s prefixes r = in_flight r.status && owned_like prefixes r && is_some (parent_job s r)

unfoldable pub rescued : (Text → Bool) → Store → List Text → ℤ → List Text
unfolding rescue_first is_rescued first sort_by
rescued locked s prefixes limit = ids_of (
    first (pos_part limit) (
      sort_by rescue_first
        (keep (λ r. is_rescued s prefixes r && not (locked r.input.id)) s.subjobs)))

unfoldable pub clean_prefixes : List Text → List Text
unfolding trim_space
clean_prefixes prefixes = keep (λ p. not (is_empty p)) (map trim_space prefixes)

unfoldable pub requeue_leases_for_owner_prefixes :
    Answer → (Text → Bool) → List Text → ℕ → ℤ → Store → Store × Result LeaseError ℕ
unfolding rescued clean_prefixes is_selected requeue_row respond update affected
requeue_leases_for_owner_prefixes answer locked prefixes now limit s =
    if leb_ℤ limit (pos 0)
    then (s, err missing_limit)
    else if is_empty (clean_prefixes prefixes)
    then (s, err missing_prefix)
    else (let ids = rescued locked s (clean_prefixes prefixes) limit in
        respond answer s
          (record s {
            subjobs =
                update (is_selected s ids) (requeue_row (λ l. text_eq l layer_scip) s now)
                  s.subjobs;
          })
          (affected (is_selected s ids) s.subjobs))
