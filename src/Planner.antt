-- ===== src/Planner.antt =====
-- internal/backend/indexplanner/planner.go: a repository's index run as subjobs by layer. SHA-256
-- is a parameter, from the bytes fed to the hash to the hexadecimal digest.
pub mod Build
pub mod Digests
pub mod Steps
pub mod Layers
pub mod Validity
pub mod Persistence
mod Tests
use codeintel.Base.{
  Bool, true, false, not, ◌&&◌, ◌||◌, Option, none, some, List, [], ◌∷◌, ◌++◌, ◌+◌, ◌/◌, ◌%◌, zero,
  suc, ℕ, ltb, is_empty, if◌then◌else◌, Text, codes, text_eq, contains_string, Result, ok, err,
  reject, ◌>>=◌, ◌>>◌,
}
use codeintel.Base.Int.{ℤ, pos, negsuc, leb_ℤ}
use codeintel.Paths.{normalize_project_root}
use codeintel.Workers.{WorkerClass, by_name, for_scip_worker_class}
use codeintel.Subjobs.{
  CreateInput, is_nil, is_blank_ptr, layer_zoekt, layer_ast_tree_sitter, layer_scip,
  layer_graph_merge, layer_activate,
}

pub record ScipProject : Type 0 where
  pub language : Text
  pub project_root : Text
  pub indexer : Text
  pub scip_worker_class : Text
  pub toolchain_digest : Option Text
  pub image_digest : Option Text
  pub project_input_hash : Option Text

pub record Revision : Type 0 where
  pub workspace_id : Option Text
  pub branch : Text
  pub revision : Text
  pub commit_hash : Text
  pub run_clone : Bool
  pub run_zoekt : Bool
  pub run_ast_tree_sitter : Bool
  pub run_graph_merge : Bool
  pub run_activate : Bool
  pub scip_projects : List ScipProject

pub record Input : Type 0 where
  pub repo_indexing_job_id : Text
  pub org_id : ℤ
  pub repo_id : ℤ
  pub max_attempts : ℤ
  pub revisions : List Revision

-- Every one of them wraps `ErrInvalidPlan`.
pub data PlanError : Type 0 where
  invalid_plan core_not_registered clone_is_repo_wide merge_without_producer
        activate_without_producer :
      PlanError
  no_executor_class : Text → PlanError
  root_not_relative : Text → PlanError

abbrev pub string_ptr_value : Option Text → Text
string_ptr_value none = []
string_ptr_value (some s) = s

-- The decimal digits of a number, on fuel: one more than the number is enough.
unfoldable pub digits : ℕ → ℕ → Text
digits zero n = []
digits (suc k) n = elim (ltb n 10) [
  | true ↦ (48 + n) ∷ []
  | false ↦ digits k (n / 10) ++ (48 + n % 10) ∷ []
]

-- `fmt.Sprint` of an integer.
unfoldable pub sprint : ℤ → Text
unfolding digits
sprint (pos n) = digits (suc n) n
sprint (negsuc n) = b'-' ∷ digits (suc (suc n)) (suc n)

-- The bytes that `digest` writes to the hash: each part and a zero byte.
unfoldable pub hashed_bytes : List Text → Text
hashed_bytes [] = []
hashed_bytes (part ∷ parts) = part ++ 0 ∷ hashed_bytes parts

abbrev pub take : ℕ → Text → Text
take zero s = []
take (suc n) [] = []
take (suc n) (c ∷ cs) = c ∷ take n cs

-- The parts of a subjob's identity.
unfoldable pub id_parts : Input → Revision → Text → Text → Text → Text → Text → List Text
unfolding sprint
id_parts input rev layer worker_class language project_root indexer =
    codes "subjob"
    ∷ input.repo_indexing_job_id
    ∷ sprint input.org_id
    ∷ string_ptr_value rev.workspace_id
    ∷ sprint input.repo_id
    ∷ rev.branch
    ∷ rev.revision
    ∷ rev.commit_hash
    ∷ layer
    ∷ worker_class
    ∷ language
    ∷ project_root
    ∷ indexer
    ∷ []

module _ (sha256 : Text → Text) where
  unfoldable pub digest : List Text → Text
  unfolding hashed_bytes
  digest parts = sha256 (hashed_bytes parts)

  unfoldable pub stable_id : Input → Revision → Text → Text → Text → Text → Text → Text
  unfolding id_parts digest
  stable_id input rev layer worker_class language project_root indexer =
      codes "isj_"
      ++ take 32 (digest (id_parts input rev layer worker_class language project_root indexer))

  unfoldable pub core_subjob : Input → Revision → Text → WorkerClass → CreateInput
  unfolding stable_id
  core_subjob input rev layer class = record {
    id = stable_id input rev layer class.name [] [] [];
    repo_indexing_job_id = input.repo_indexing_job_id;
    code_intel_index_id = none;
    org_id = input.org_id;
    workspace_id = rev.workspace_id;
    repo_id = input.repo_id;
    branch = rev.branch;
    revision = rev.revision;
    commit_hash = rev.commit_hash;
    layer = layer;
    language = none;
    project_root = none;
    indexer = none;
    worker_class = class.name;
    queue_name = class.queue_name;
    max_attempts = input.max_attempts;
    input_digest = some (
        digest (
          codes "input"
          ∷ input.repo_indexing_job_id
          ∷ string_ptr_value rev.workspace_id
          ∷ rev.branch
          ∷ rev.revision
          ∷ rev.commit_hash
          ∷ layer
          ∷ class.name
          ∷ []));
    toolchain_digest = none;
    image_digest = none;
  }

  -- `inputDigest` of a project: its own hash where it has one.
  unfoldable pub project_digest : Input → Revision → ScipProject → Text → Text
  unfolding digest
  project_digest input rev project root =
      let computed = digest (
        codes "input"
        ∷ input.repo_indexing_job_id
        ∷ string_ptr_value rev.workspace_id
        ∷ rev.branch
        ∷ rev.revision
        ∷ rev.commit_hash
        ∷ project.language
        ∷ root
        ∷ project.indexer
        ∷ project.scip_worker_class
        ∷ []) in
      if is_blank_ptr project.project_input_hash
      then computed
      else string_ptr_value project.project_input_hash
