-- ===== src/Subjobs.antt =====
-- internal/backend/indexsubjobs/store.go and internal/backend/indexsubjobtask/payload.go: the
-- subjobs of an index run, the test that a row is well formed, and the task's payload.
pub mod Table
pub mod Upserts
pub mod Payloads
mod Tests
use codeintel.Base.{
  Bool, true, false, not, ◌&&◌, ◌||◌, Option, none, some, List, [], ◌∷◌, ◌==◌, ℕ, leb, is_empty,
  length, if◌then◌else◌, Text, codes, text_eq, contains_string, Result, ok, err, reject, ◌>>=◌,
  ◌>>◌,
}
use codeintel.Base.Int.{ℤ, pos, leb_ℤ}
use codeintel.Paths.{safe_project_root}
use codeintel.Workers.{WorkerClass, by_name}

abbrev pub status_queued : Text
status_queued = codes "QUEUED"

abbrev pub status_skipped : Text
status_skipped = codes "SKIPPED"

abbrev pub layer_clone : Text
layer_clone = codes "CLONE"

abbrev pub layer_zoekt : Text
layer_zoekt = codes "ZOEKT"

abbrev pub layer_ast_tree_sitter : Text
layer_ast_tree_sitter = codes "AST_TREE_SITTER"

abbrev pub layer_scip : Text
layer_scip = codes "SCIP"

abbrev pub layer_graph_merge : Text
layer_graph_merge = codes "GRAPH_MERGE"

abbrev pub layer_activate : Text
layer_activate = codes "ACTIVATE"

abbrev pub layer_remove : Text
layer_remove = codes "REMOVE"

-- A nil pointer is `none`; the numbers are int32.
pub record CreateInput : Type 0 where
  pub id : Text
  pub repo_indexing_job_id : Text
  pub code_intel_index_id : Option Text
  pub org_id : ℤ
  pub workspace_id : Option Text
  pub repo_id : ℤ
  pub branch : Text
  pub revision : Text
  pub commit_hash : Text
  pub layer : Text
  pub language : Option Text
  pub project_root : Option Text
  pub indexer : Option Text
  pub worker_class : Text
  pub queue_name : Text
  pub max_attempts : ℤ
  pub input_digest : Option Text
  pub toolchain_digest : Option Text
  pub image_digest : Option Text

unfoldable pub valid_layer : Text → Bool
unfolding contains_string
valid_layer layer =
    contains_string
      (layer_clone ∷ layer_zoekt ∷ layer_ast_tree_sitter ∷ layer_scip ∷ layer_graph_merge
        ∷ layer_activate ∷ layer_remove ∷ [])
      layer

-- nil, or a pointer to the empty string.
abbrev pub is_blank_ptr : Option Text → Bool
is_blank_ptr none = true
is_blank_ptr (some s) = is_empty s

abbrev pub is_nil : Option Text → Bool
is_nil none = true
is_nil (some _) = false

abbrev pub is_hex : ℕ → Bool
is_hex c = (leb b'0' c && leb c b'9') || (leb b'a' c && leb c b'f') || (leb b'A' c && leb c b'F')

abbrev pub all_hex : Text → Bool
all_hex [] = true
all_hex (c ∷ cs) = is_hex c && all_hex cs

-- `^[0-9a-fA-F]{40}$`
unfoldable pub is_commit_hash : Text → Bool
is_commit_hash s = length s == 40 && all_hex s

-- The worker class is one of the table's, and the queue is its queue.
unfoldable pub owns_queue : Text → Text → Bool
owns_queue worker_class queue_name = elim (by_name worker_class) [
  | none ↦ false
  | some class ↦ text_eq class.queue_name queue_name
]

-- The project fields belong to the SCIP layer.
unfoldable pub fits_layer : CreateInput → Bool
fits_layer input =
    if text_eq input.layer layer_scip
    then not (is_blank_ptr input.language)
      && not (is_nil input.project_root)
      && not (is_blank_ptr input.indexer)
      && elim input.project_root [ none ↦ false | some root ↦ safe_project_root root ]
    else is_nil input.language && is_nil input.project_root && is_nil input.indexer

-- The tests of `upsertWithStatus` in front of the statement, but for the status.
unfoldable pub is_valid_input : CreateInput → Bool
is_valid_input input =
    not (is_empty input.id)
    && not (is_empty input.repo_indexing_job_id)
    && not (leb_ℤ input.org_id (pos 0))
    && not (leb_ℤ input.repo_id (pos 0))
    && not (is_blank_ptr input.workspace_id)
    && not (is_empty input.branch)
    && not (is_empty input.revision)
    && not (is_empty input.commit_hash)
    && not (is_empty input.layer)
    && not (is_empty input.worker_class)
    && not (is_empty input.queue_name)
    && is_commit_hash input.commit_hash
    && valid_layer input.layer
    && owns_queue input.worker_class input.queue_name
    && fits_layer input

pub record Payload : Type 0 where
  pub subjob_id : Text
  pub repo_indexing_job_id : Text
  pub org_id : ℤ
  pub workspace_id : Option Text
  pub repo_id : ℤ
  pub branch : Text
  pub revision : Text
  pub commit_hash : Text
  pub layer : Text
  pub language : Option Text
  pub project_root : Option Text
  pub indexer : Option Text
  pub worker_class : Text
  pub queue_name : Text
  pub attempt : ℤ

pub data PayloadError : Type 0 where
  invalid_payload json_error : PayloadError

unfoldable pub validate : Payload → Result PayloadError (Unit {0})
unfolding owns_queue is_commit_hash valid_layer
validate p = do
  reject
      (is_empty p.subjob_id
        || is_empty p.repo_indexing_job_id
        || leb_ℤ p.org_id (pos 0)
        || leb_ℤ p.repo_id (pos 0)
        || is_blank_ptr p.workspace_id
        || is_empty p.branch
        || is_empty p.revision
        || is_empty p.commit_hash
        || not (valid_layer p.layer)
        || is_empty p.worker_class
        || is_empty p.queue_name)
      invalid_payload
  reject (not (is_commit_hash p.commit_hash)) invalid_payload
  reject (not (owns_queue p.worker_class p.queue_name)) invalid_payload
  reject
      (if text_eq p.layer layer_scip
        then is_blank_ptr p.language || is_nil p.project_root || is_blank_ptr p.indexer
        else not (is_nil p.language) || not (is_nil p.project_root) || not (is_nil p.indexer))
      invalid_payload
  ok tt

-- `encoding/json` on payloads; `none` is an error.
pub record Json : Type 0 where
  pub encode : Payload → Text
  pub decode : Text → Option Payload

module _ (json : Json) where
  unfoldable pub marshal : Payload → Result PayloadError Text
  unfolding validate
  marshal p = do validate p; ok (json.encode p)

  unfoldable pub unmarshal : Text → Result PayloadError Payload
  unfolding validate
  unmarshal raw = elim (json.decode raw) [
    | none ↦ err json_error
    | some p ↦ validate p >>= λ _. ok p
  ]
