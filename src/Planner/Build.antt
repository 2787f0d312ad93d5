-- ===== src/Planner/Build.antt =====
-- planner.go: the subjobs of each revision in their order, the refusals, and what is persisted.
use codeintel.Base.{
  Bool, true, false, not, ◌&&◌, ◌||◌, Option, none, some, List, [], ◌∷◌, ◌++◌, is_empty, Text,
  codes, Result, ok, err, reject, ◌>>=◌, ◌>>◌,
}
use codeintel.Base.Int.{pos, leb_ℤ}
use codeintel.Paths.{normalize_project_root}
use codeintel.Workers.{WorkerClass, by_name, for_scip_worker_class}
use codeintel.Subjobs.{
  CreateInput, is_blank_ptr, layer_zoekt, layer_ast_tree_sitter, layer_scip, layer_graph_merge,
  layer_activate,
}
use codeintel.Planner.{
  ScipProject, Revision, Input, PlanError, invalid_plan, core_not_registered, clone_is_repo_wide,
  merge_without_producer, activate_without_producer, no_executor_class, root_not_relative,
  stable_id, core_subjob, project_digest,
}

-- `x, ok := ...; if !ok { return err }`
abbrev pub require {ε ℓ} : {E : Type ε} {A : Type ℓ} → Option A → E → Result E A
require none e = err e
require (some a) e = ok a

abbrev pub has_graph_producer : Revision → Bool
has_graph_producer rev = rev.run_ast_tree_sitter || not (is_empty rev.scip_projects)

abbrev pub has_producer : Revision → Bool
has_producer rev = rev.run_zoekt || has_graph_producer rev

-- The tests of a revision in front of its subjobs.
unfoldable pub check_revision : Revision → Result PlanError (Unit {0})
check_revision rev = do
  reject (is_empty rev.branch || is_empty rev.revision || is_empty rev.commit_hash) invalid_plan
  reject (is_blank_ptr rev.workspace_id) invalid_plan
  reject rev.run_clone clone_is_repo_wide
  reject (rev.run_graph_merge && not (has_graph_producer rev)) merge_without_producer
  reject (rev.run_activate && not (has_producer rev) && not rev.run_graph_merge)
      activate_without_producer
  ok tt

-- `if run { out = append(out, subjob) }`
abbrev pub when {ℓ} : {A : Type ℓ} → Bool → A → List A
when true a = a ∷ []
when false a = []

module _ (sha256 : Text → Text) where
  unfoldable pub scip_subjob : Input → Revision → ScipProject → Result PlanError CreateInput
  unfolding stable_id project_digest
  scip_subjob input rev project = do
    reject
        (is_empty project.language
          || is_empty project.indexer
          || is_empty project.scip_worker_class)
        invalid_plan
    class ←
        require (for_scip_worker_class project.scip_worker_class)
          (no_executor_class project.scip_worker_class)
    root ←
        require (normalize_project_root project.project_root)
          (root_not_relative project.project_root)
    ok (record {
      id = stable_id sha256 input rev layer_scip class.name project.language root project.indexer;
      repo_indexing_job_id = input.repo_indexing_job_id;
      code_intel_index_id = none;
      org_id = input.org_id;
      workspace_id = rev.workspace_id;
      repo_id = input.repo_id;
      branch = rev.branch;
      revision = rev.revision;
      commit_hash = rev.commit_hash;
      layer = layer_scip;
      language = some project.language;
      project_root = some root;
      indexer = some project.indexer;
      worker_class = class.name;
      queue_name = class.queue_name;
      max_attempts = input.max_attempts;
      input_digest = some (project_digest sha256 input rev project root);
      toolchain_digest = project.toolchain_digest;
      image_digest = project.image_digest;
    })

  unfoldable pub scip_subjobs :
      Input → Revision → List ScipProject → Result PlanError (List CreateInput)
  unfolding scip_subjob
  scip_subjobs input rev [] = ok []
  scip_subjobs input rev (project ∷ rest) =
      let later = scip_subjobs input rev rest in
      do subjob ← scip_subjob input rev project; others ← later; ok (subjob ∷ others)

  unfoldable pub revision_subjobs :
      Input → WorkerClass → Revision → Result PlanError (List CreateInput)
  unfolding check_revision core_subjob scip_subjobs
  revision_subjobs input core rev = do
    check_revision rev
    scip ← scip_subjobs input rev rev.scip_projects
    ok (
        when rev.run_zoekt (core_subjob sha256 input rev layer_zoekt core)
        ++ when rev.run_ast_tree_sitter (core_subjob sha256 input rev layer_ast_tree_sitter core)
        ++ scip
        ++ when rev.run_graph_merge (core_subjob sha256 input rev layer_graph_merge core)
        ++ when rev.run_activate (core_subjob sha256 input rev layer_activate core))

  -- The loop over the revisions.
  unfoldable pub all_subjobs :
      Input → WorkerClass → List Revision → Result PlanError (List CreateInput)
  unfolding revision_subjobs
  all_subjobs input core [] = ok []
  all_subjobs input core (rev ∷ rest) =
      let later = all_subjobs input core rest in
      do subjobs ← revision_subjobs input core rev; others ← later; ok (subjobs ++ others)

  unfoldable pub build : Input → Result PlanError (List CreateInput)
  unfolding all_subjobs
  build input = do
    reject
        (is_empty input.repo_indexing_job_id
          || leb_ℤ input.org_id (pos 0)
          || leb_ℤ input.repo_id (pos 0)
          || is_empty input.revisions)
        invalid_plan
    core ← require (by_name (codes "core")) core_not_registered
    subjobs ← all_subjobs input core input.revisions
    reject (is_empty subjobs) invalid_plan
    ok subjobs

-- Why nothing, or not everything, was persisted.
pub data PersistError {ε} (E : Type ε) : Type ε where
  store_required : PersistError E
  plan_refused : PlanError → PersistError E
  not_written : E → PersistError E

-- The loop stops at the first error; earlier subjobs stay written.
unfoldable pub write_subjobs {ℓ ε} :
    {S : Type ℓ} {E : Type ε}
    → (S → CreateInput → S × Option E)
    → List CreateInput
    → S
    → S × Option E
write_subjobs upsert [] s = (s, none)
write_subjobs upsert (subjob ∷ rest) s =
    let (s', failed) = upsert s subjob in
    elim failed [ some e ↦ (s', some e) | none ↦ write_subjobs upsert rest s' ]

-- A nil store is `none`.
unfoldable pub plan_and_persist {ℓ ε} :
    {S : Type ℓ} {E : Type ε}
    → (Text → Text)
    → Option (S → CreateInput → S × Option E)
    → S
    → Input
    → S × Result (PersistError E) (List CreateInput)
unfolding build write_subjobs
plan_and_persist sha256 none s input = (s, err store_required)
plan_and_persist sha256 (some upsert) s input = elim (build sha256 input) [
  | err e ↦ (s, err (plan_refused e))
  | ok subjobs ↦
      let (s', failed) = write_subjobs upsert subjobs s in
      elim failed [ some e ↦ (s', err (not_written e)) | none ↦ (s', ok subjobs) ]
]
