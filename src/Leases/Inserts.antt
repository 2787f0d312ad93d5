-- ===== src/Leases/Inserts.antt =====
-- `upsertWithStatus` on the tables here: what the upsert of a subjob leaves in the columns of a row.
use codeintel.Base.{none, some, ℕ, arith, Text, text_eq, if◌then◌else◌}
use codeintel.Subjobs.{CreateInput, status_skipped}
use codeintel.Subjobs.Table.{SubjobRow, new_row}
use codeintel.Leases.{queued, skipped, Row}
use codeintel.Leases.Soundness.{IsSound}

-- The row that an INSERT makes at a time; the columns that it does not name are NULL or 0.
unfoldable pub inserted_row : ℕ → SubjobRow → Row
inserted_row now r =
    let is_skipped = text_eq r.status status_skipped in
    record {
      input = r.input;
      status = if is_skipped then skipped else queued;
      attempt = 0;
      attempt_id = none;
      lease_owner = none;
      lease_expires_at = none;
      heartbeat_at = none;
      started_at = none;
      completed_at = if is_skipped then some now else none;
      artifact_temp_path = none;
      artifact_path = none;
      artifact_sha256 = none;
      error_code = some r.error_code;
      error_message = some r.error_message;
      created_at = now;
      updated_at = now;
    }

pub inserted-IsSound :
    (now : ℕ) (input : CreateInput) (status code message : Text)
    → IsSound (inserted_row now (new_row input status code message))
unfolding IsSound inserted_row new_row
inserted-IsSound now input status code message = ground arith
