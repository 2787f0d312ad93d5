-- ===== src/Subjobs/Table.antt =====
-- `upsertWithStatus` of store.go on the table that its SQL statement names: the primary key `id`,
-- the unique scope index of migration 0024, and the two EXISTS conditions.
use codeintel.Base.{
  Bool, false, not, ◌&&◌, ◌||◌, Option, none, some, List, [], ◌∷◌, ◌++◌, is_empty, if◌then◌else◌,
  Text, text_eq, trim_space,
}
use codeintel.Base.Int.{pos, leb_ℤ, eqb_ℤ}
use codeintel.Subjobs.{CreateInput, is_valid_input, status_queued, status_skipped}

-- A row: what was given, with the default for the attempts, and the columns set beside it.
pub record SubjobRow : Type 0 where
  pub input : CreateInput
  pub status : Text
  pub error_code : Text
  pub error_message : Text

-- `ready` says if the job runs and its manifest is pending, `reachable` if the statement gets an
-- answer.
pub record Database : Type 0 where
  pub rows : List SubjobRow
  pub ready : CreateInput → Bool
  pub reachable : Bool

pub data StoreError : Type 0 where
  invalid_create_input scope_not_ready database_error : StoreError

-- `COALESCE(column, '')`
abbrev pub coalesce : Option Text → Text
coalesce none = []
coalesce (some s) = s

-- Equal in the columns of the unique index.
unfoldable pub same_scope : CreateInput → CreateInput → Bool
same_scope a b =
    text_eq a.repo_indexing_job_id b.repo_indexing_job_id
    && text_eq (coalesce a.workspace_id) (coalesce b.workspace_id)
    && text_eq a.branch b.branch
    && text_eq a.revision b.revision
    && text_eq a.commit_hash b.commit_hash
    && text_eq a.layer b.layer
    && text_eq a.worker_class b.worker_class
    && text_eq (coalesce a.language) (coalesce b.language)
    && text_eq (coalesce a.project_root) (coalesce b.project_root)
    && text_eq (coalesce a.indexer) (coalesce b.indexer)

-- The condition of DO UPDATE; the workspaces are not NULL here.
unfoldable pub same_row : CreateInput → CreateInput → Bool
unfolding same_scope
same_row a b =
    same_scope a b
    && eqb_ℤ a.org_id b.org_id
    && eqb_ℤ a.repo_id b.repo_id
    && text_eq a.queue_name b.queue_name

unfoldable pub find_id : Text → List SubjobRow → Option SubjobRow
find_id id [] = none
find_id id (r ∷ rest) =
    let later = find_id id rest in if text_eq r.input.id id then some r else later

unfoldable pub has_scope : CreateInput → List SubjobRow → Bool
has_scope input [] = false
has_scope input (r ∷ rest) = same_scope r.input input || has_scope input rest

-- The row that the statement inserts.
unfoldable pub new_row : CreateInput → Text → Text → Text → SubjobRow
new_row input status code message = record {
  input = record input {
    max_attempts = if leb_ℤ input.max_attempts (pos 0) then pos 3 else input.max_attempts;
  };
  status = status;
  error_code = code;
  error_message = message;
}

-- The statement. A conflict on the id rewrites `updatedAt` only, which no column here shows.
unfoldable pub insert_row : Database → SubjobRow → Database × Option StoreError
unfolding same_row find_id has_scope
insert_row db row =
    if not db.reachable
    then (db, some database_error)
    else if not (db.ready row.input)
    then (db, some scope_not_ready)
    else elim (find_id row.input.id db.rows) [
      | some r ↦ if same_row r.input row.input then (db, none) else (db, some scope_not_ready)
      | none ↦
          if has_scope row.input db.rows
          then (db, some database_error)
          else (record db { rows = db.rows ++ row ∷ [] }, none)
    ]

unfoldable pub upsert_with_status :
    Database → CreateInput → Text → Text → Text → Database × Option StoreError
unfolding insert_row new_row is_valid_input
upsert_with_status db input status code message =
    if not (is_valid_input input)
    then (db, some invalid_create_input)
    else if not (text_eq status status_skipped) && not (text_eq status status_queued)
    then (db, some invalid_create_input)
    else insert_row db (new_row input status code message)

unfoldable pub upsert_queued : Database → CreateInput → Database × Option StoreError
unfolding upsert_with_status
upsert_queued db input = upsert_with_status db input status_queued [] []

unfoldable pub upsert_skipped : Database → CreateInput → Text → Text → Database × Option StoreError
unfolding upsert_with_status
upsert_skipped db input code message =
    if is_empty (trim_space code) || is_empty (trim_space message)
    then (db, some invalid_create_input)
    else upsert_with_status db input status_skipped code message
