-- ===== src/Leases/Listing.antt =====
-- `ListDispatchable`: the waiting rows whose dependencies are done, oldest first.
use codeintel.Base.{
  Bool, true, false, not, ◌&&◌, ◌||◌, List, map, keep, ltb, text_eq, text_lt, err, Result,
  if◌then◌else◌, exists_in, first, sort_by, ◌==◌,
}
use codeintel.Base.Int.{ℤ, pos, leb_ℤ, eqb_ℤ, pos_part}
use codeintel.Subjobs.{
  layer_clone, layer_zoekt, layer_scip, layer_graph_merge, layer_activate, layer_remove,
}
use codeintel.Subjobs.Table.{coalesce}
use codeintel.Dispatch.{DispatchableSubjob}
use codeintel.Dispatch.Tasks.{scanned_row}
use codeintel.Leases.{
  Status, queued, claimed, running, validating, succeeded, failed, retrying, canceled, skipped, Row,
  Store, LeaseError, missing_limit, Answer, respond, is_waiting, has_attempts, is_semantic,
  parent_runs,
}

-- status IN ('SUCCEEDED', 'SKIPPED')
abbrev pub is_settled : Status → Bool
is_settled succeeded = true
is_settled skipped = true
is_settled _ = false

-- status IN ('FAILED', 'CANCELED')
abbrev pub is_lost : Status → Bool
is_lost failed = true
is_lost canceled = true
is_lost _ = false

-- status IN ('QUEUED', 'CLAIMED', 'RUNNING', 'VALIDATING', 'RETRYING')
abbrev pub is_underway : Status → Bool
is_underway queued = true
is_underway claimed = true
is_underway running = true
is_underway validating = true
is_underway retrying = true
is_underway _ = false

-- The columns in which a dependency agrees with the row.
unfoldable pub same_run : Row → Row → Bool
same_run dep s =
    text_eq dep.input.repo_indexing_job_id s.input.repo_indexing_job_id
    && text_eq (coalesce dep.input.workspace_id) (coalesce s.input.workspace_id)
    && eqb_ℤ dep.input.repo_id s.input.repo_id
    && text_eq dep.input.branch s.input.branch
    && text_eq dep.input.revision s.input.revision
    && text_eq dep.input.commit_hash s.input.commit_hash

-- Neither done nor a SCIP index that was given up.
unfoldable pub is_pending : Row → Bool
is_pending dep =
    not (is_settled dep.status) && not (text_eq dep.input.layer layer_scip && is_lost dep.status)

unfoldable pub waits_for_clone : Row → Row → Bool
unfolding same_run
waits_for_clone s dep =
    same_run dep s && text_eq dep.input.layer layer_clone && not (is_settled dep.status)

unfoldable pub waits_for_symbols : Row → Row → Bool
unfolding same_run is_pending
waits_for_symbols s dep = same_run dep s && is_semantic dep.input.layer && is_pending dep

unfoldable pub waits_for_layer : Row → Row → Bool
unfolding same_run is_pending
waits_for_layer s dep =
    same_run dep s
    && not (text_eq dep.input.id s.input.id)
    && not (text_eq dep.input.layer layer_activate)
    && is_pending dep

-- ORDER BY s."createdAt" ASC, s.id ASC, which also compares the pairs.
unfoldable pub is_older : Row → Row → Bool
is_older a b =
    ltb a.created_at b.created_at || (a.created_at == b.created_at && text_lt a.input.id b.input.id)

-- An is_older activation of the job.
unfoldable pub waits_for_activation : Row → Row → Bool
unfolding is_older
waits_for_activation s act =
    text_eq act.input.repo_indexing_job_id s.input.repo_indexing_job_id
    && text_eq (coalesce act.input.workspace_id) (coalesce s.input.workspace_id)
    && eqb_ℤ act.input.repo_id s.input.repo_id
    && text_eq act.input.layer layer_activate
    && not (text_eq act.input.id s.input.id)
    && is_underway act.status
    && is_older act s

-- The disjunction over the layers.
unfoldable pub dependencies_done : List Row → Row → Bool
unfolding waits_for_clone waits_for_symbols waits_for_layer waits_for_activation exists_in
dependencies_done rows s =
    (text_eq s.input.layer layer_clone || text_eq s.input.layer layer_remove)
    || ((text_eq s.input.layer layer_zoekt || is_semantic s.input.layer)
        && not (exists_in (waits_for_clone s) rows))
    || (text_eq s.input.layer layer_graph_merge && not (exists_in (waits_for_symbols s) rows))
    || (text_eq s.input.layer layer_activate
        && not (exists_in (waits_for_layer s) rows)
        && not (exists_in (waits_for_activation s) rows))

unfoldable pub is_dispatchable : Store → Row → Bool
unfolding parent_runs dependencies_done
is_dispatchable s r =
    is_waiting r.status && parent_runs s r && has_attempts r && dependencies_done s.subjobs r

-- The rows of the answer.
unfoldable pub dispatchable_rows : ℤ → Store → List Row
unfolding is_dispatchable is_older first sort_by
dispatchable_rows limit s =
    first (pos_part limit) (sort_by is_older (keep (is_dispatchable s) s.subjobs))

unfoldable pub list_dispatchable :
    Answer → ℤ → Store → Store × Result LeaseError (List DispatchableSubjob)
unfolding dispatchable_rows scanned_row respond
list_dispatchable answer limit s =
    if leb_ℤ limit (pos 0)
    then (s, err missing_limit)
    else respond answer s s
        (map (λ (r : Row). scanned_row r.input (pos r.attempt)) (dispatchable_rows limit s))
