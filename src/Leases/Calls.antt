-- ===== src/Leases/Calls.antt =====
-- The calls of the store as data, histories of calls, and what each may do to the rows.
use codeintel.Base.{Bool, List, [], ◌∷◌, ℕ, Text}
use codeintel.Base.Int.{ℤ}
use codeintel.Leases.{Store, Answer}
use codeintel.Leases.Claims.{
  ClaimScope, claim_scoped, heartbeat, mark_artifact_written, mark_succeeded,
}
use codeintel.Subjobs.{CreateInput, Payload}
use codeintel.Leases.Validation.{ArtifactStore, validate_live_subjob_lease}
use codeintel.Leases.Failures.{mark_failed, mark_retryable_infrastructure_failure}
use codeintel.Leases.Requeues.{requeue_expired_leases, requeue_leases_for_owner_prefixes}
use codeintel.Leases.Reconcile.{reconcile_terminal_failures}
use codeintel.Leases.Steps.{Moves, Moves-refl, Moves-trans}
use codeintel.Leases.WorkerMoves.{
  claim-Moves, heartbeat-Moves, mark_artifact_written-Moves, validate-Moves, mark_succeeded-Moves,
  mark_failed-Moves, infrastructure-Moves,
}
use codeintel.Leases.SweepMoves.{requeue-Moves, rescue-Moves, reconcile-Moves}
use codeintel.Leases.Keys.{IsKeyed, Moves-IsKeyed}

-- The calls that update rows: those of Store and the validation of the artifact stores. Not among them
-- are UpsertQueued and UpsertSkipped, which change no row that is there but its `updatedAt` and may add
-- one with a new id.
pub data Call : Type 0 where
  claim : Answer → ℕ → ClaimScope → Text → Text → ℕ → Call
  beat : Answer → ℕ → Text → Text → Text → ℕ → Call
  write : Answer → ℕ → Text → Text → Text → Text → Text → Text → Call
  validate :
      Answer → ℕ → ArtifactStore → Payload → (CreateInput → Bool) → Text → Text → Text → Text → Call
  succeed : Answer → ℕ → Text → Text → Text → Call
  fail : Answer → Answer → ℕ → Text → Text → Text → Text → Text → Call
  fail_infrastructure : Answer → Answer → ℕ → Text → Text → Text → Text → Text → Call
  requeue : Answer → (Text → Bool) → ℕ → ℕ → ℤ → Call
  rescue : Answer → (Text → Bool) → List Text → ℕ → ℤ → Call
  reconcile : Answer → (Text → Bool) → (Text → Bool) → ℕ → ℤ → Call

-- The store after a call.
unfoldable pub run : Call → Store → Store
unfolding claim_scoped heartbeat mark_artifact_written validate_live_subjob_lease mark_succeeded
    mark_failed mark_retryable_infrastructure_failure requeue_expired_leases
    requeue_leases_for_owner_prefixes reconcile_terminal_failures
run (claim answer now scope owner attempt_id until) s =
    (claim_scoped answer now scope owner attempt_id until s).0
run (beat answer now id owner attempt_id until) s =
    (heartbeat answer now id owner attempt_id until s).0
run (write answer now id owner attempt_id temp_path path sha256) s =
    (mark_artifact_written answer now id owner attempt_id temp_path path sha256 s).0
run (validate answer now store p pending owner attempt_id path sha256) s =
    (validate_live_subjob_lease answer now store p pending owner attempt_id path sha256 s).0
run (succeed answer now id owner attempt_id) s = (mark_succeeded answer now id owner attempt_id s).0
run (fail answer closing now id owner attempt_id code message) s =
    (mark_failed answer closing now id owner attempt_id code message s).0
run (fail_infrastructure answer closing now id owner attempt_id code message) s =
    (mark_retryable_infrastructure_failure answer closing now id owner attempt_id code message s).0
run (requeue answer locked clock now limit) s =
    (requeue_expired_leases answer locked clock now limit s).0
run (rescue answer locked prefixes now limit) s =
    (requeue_leases_for_owner_prefixes answer locked prefixes now limit s).0
run (reconcile answer locked second now limit) s =
    (reconcile_terminal_failures answer locked second now limit s).0

unfoldable pub run_all : List Call → Store → Store
unfolding run
run_all [] s = s
run_all (c ∷ cs) s = run_all cs (run c s)

-- Every call moves every row along the relation, whatever it answers.
pub run-Moves : (c : Call) (s : Store) → IsKeyed s.subjobs → Moves s.subjobs (run c s).subjobs
unfolding run
run-Moves (claim a now scope o i u) s k = claim-Moves a now scope o i u s
run-Moves (beat a now d o i u) s k = heartbeat-Moves a now d o i u s
run-Moves (write a now d o i x y z) s k = mark_artifact_written-Moves a now d o i x y z s
run-Moves (validate a now x p m o i y z) s k = validate-Moves a now x p m o i y z s
run-Moves (succeed a now d o i) s k = mark_succeeded-Moves a now d o i s
run-Moves (fail a b now d o i x y) s k = mark_failed-Moves a b now d o i x y s
run-Moves (fail_infrastructure a b now d o i x y) s k = infrastructure-Moves a b now d o i x y s
run-Moves (requeue a locked clock now limit) s k = requeue-Moves a locked clock now limit s k
run-Moves (rescue a locked prefixes now limit) s k = rescue-Moves a locked prefixes now limit s k
run-Moves (reconcile a locked second now limit) s k = reconcile-Moves a locked second now limit s k

pub run_all-Moves :
    (cs : List Call) (s : Store) → IsKeyed s.subjobs → Moves s.subjobs (run_all cs s).subjobs
unfolding run_all
run_all-Moves [] s k = Moves-refl s.subjobs
run_all-Moves (c ∷ cs) s k =
    let m = run-Moves c s k in
    Moves-trans s.subjobs (run c s).subjobs _ m
      (run_all-Moves cs (run c s) (Moves-IsKeyed s.subjobs (run c s).subjobs m k))
