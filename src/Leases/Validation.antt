-- ===== src/Leases/Validation.antt =====
-- The statement by which an ingestor takes a written artifact: `validateLiveSubjobLease` of
-- internal/backend/zoektartifact, astartifact and scipartifact.
use codeintel.Base.{
  Bool, true, false, not, ◌&&◌, ◌||◌, Option, none, some, ℕ, ltb, ◌+◌, ◌*◌, is_some, Text, text_eq,
  Result, if◌then◌else◌,
}
use codeintel.Base.Int.{eqb_ℤ}
use codeintel.Subjobs.{CreateInput, Payload, layer_zoekt, layer_ast_tree_sitter, layer_scip}
use codeintel.Subjobs.Table.{coalesce}
use codeintel.Leases.{
  Status, artifact_written, validating, Row, Store, LeaseError, Answer, column_is, coalesce_ℕ,
  parent_runs, update_row,
}
use codeintel.Leases.Claims.{held_by, is_live}

pub data ArtifactStore : Type 0 where
  zoekt_store ast_store scip_store : ArtifactStore

-- `column = pointer`, which a nil pointer never meets either.
abbrev pub pointer_is : Option Text → Option Text → Bool
pointer_is column none = false
pointer_is column (some s) = column_is column s

-- The layer, and the project's columns, in which the three statements differ. The SCIP store takes
-- only payloads that have all three pointers.
unfoldable pub fits_store : ArtifactStore → Payload → CreateInput → Bool
fits_store zoekt_store p i =
    text_eq i.layer layer_zoekt
    && not (is_some i.language || is_some i.project_root || is_some i.indexer)
fits_store ast_store p i =
    text_eq i.layer layer_ast_tree_sitter
    && not (is_some i.language || is_some i.project_root || is_some i.indexer)
fits_store scip_store p i =
    text_eq i.layer layer_scip
    && text_eq (coalesce i.language) (coalesce p.language)
    && text_eq (coalesce i.project_root) (coalesce p.project_root)
    && text_eq (coalesce i.indexer) (coalesce p.indexer)

-- The row is that of the payload.
unfoldable pub in_payload : ArtifactStore → Payload → CreateInput → Bool
unfolding fits_store
in_payload store p i =
    text_eq i.repo_indexing_job_id p.repo_indexing_job_id
    && eqb_ℤ i.org_id p.org_id
    && pointer_is i.workspace_id p.workspace_id
    && eqb_ℤ i.repo_id p.repo_id
    && text_eq i.branch p.branch
    && text_eq i.revision p.revision
    && text_eq i.commit_hash p.commit_hash
    && fits_store store p i
    && text_eq i.worker_class p.worker_class
    && text_eq i.queue_name p.queue_name

-- status IN ('ARTIFACT_WRITTEN', 'VALIDATING')
abbrev pub is_under_validation : Status → Bool
is_under_validation artifact_written = true
is_under_validation validating = true
is_under_validation _ = false

-- INTERVAL '15 minutes'
abbrev pub lease_extension : ℕ
lease_extension = 15 * 60 * 1000000000

-- `path` and `sha256` are those of the result; `pending` says if a row's manifest is pending.
unfoldable pub may_validate :
    ArtifactStore
    → Payload
    → (CreateInput → Bool)
    → Text
    → Text
    → Text
    → Text
    → Store
    → ℕ
    → Row
    → Bool
unfolding held_by in_payload parent_runs
may_validate store p pending owner attempt_id path sha256 s now r =
    held_by p.subjob_id owner attempt_id r
    && in_payload store p r.input
    && column_is r.artifact_path path
    && column_is r.artifact_sha256 sha256
    && is_under_validation r.status
    && is_live now r
    && parent_runs s r
    && pending r.input

-- GREATEST, which leaves NULL aside.
unfoldable pub validate_row : ℕ → Row → Row
validate_row now r =
    let extended = now + lease_extension in
    let end = coalesce_ℕ r.lease_expires_at extended in
    record r {
      status = validating;
      lease_expires_at = some (if ltb end extended then extended else end);
      heartbeat_at = some now;
      updated_at = now;
    }

-- The answer false is the error that the lease is no longer valid. If the statement's transaction is
-- rolled back, it did not run.
unfoldable pub validate_live_subjob_lease :
    Answer
    → ℕ
    → ArtifactStore
    → Payload
    → (CreateInput → Bool)
    → Text
    → Text
    → Text
    → Text
    → Store
    → Store × Result LeaseError Bool
unfolding may_validate validate_row update_row
validate_live_subjob_lease answer now store p pending owner attempt_id path sha256 s =
    update_row answer (may_validate store p pending owner attempt_id path sha256 s now)
      (validate_row now) s
