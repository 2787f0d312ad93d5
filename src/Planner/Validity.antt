-- ===== src/Planner/Validity.antt =====
-- Every subjob of a plan passes the store's tests.
use mathlib.Core.Path.{subst}
use mathlib.Core.List.{Mem}
use codeintel.Base.{
  ◌≡◌, refl, Bool, true, false, ◌||◌, List, [], ◌∷◌, ◌++◌, is_empty, arith, All, All-append, Text,
  codes, text_eq, text_eq_self, ok, reject, chain_steps, ok-injective, reject-passed,
}
use codeintel.Base.Int.{pos, leb_ℤ}
use codeintel.Paths.{normalize_project_root}
use codeintel.Paths.Normal.{normalize_project_root_idem}
use codeintel.Workers.{WorkerClass, classes, for_scip_worker_class}
use codeintel.Workers.Ownership.{scip_owner, class_by_name, by_name-Mem, class_names_filled}
use codeintel.Subjobs.{
  CreateInput, is_valid_input, is_commit_hash, valid_layer, owns_queue, fits_layer, layer_scip,
  layer_zoekt, layer_ast_tree_sitter, layer_graph_merge, layer_activate,
}
use codeintel.Planner.{
  ScipProject, Revision, Input, core_subjob, stable_id, invalid_plan, no_executor_class,
  root_not_relative,
}
use codeintel.Planner.Build.{
  when, require, scip_subjob, scip_subjobs, revision_subjobs, all_subjobs, build,
}
use codeintel.Planner.Steps.{
  IsPlannable, scip_subjobs-cons, revision_subjobs-parts, all_subjobs-cons, build-parts,
  require-found,
}

abbrev pub IsValidInput : CreateInput → Type 0
IsValidInput i = is_valid_input i ≡ true

-- The commit hash of a revision is one.
abbrev pub HasCommit : Revision → Type 0
HasCommit rev = is_commit_hash rev.commit_hash ≡ true

-- What the store asks of a class and its queue.
Registered : WorkerClass → Type 0
Registered c =
    (is_empty c.name ≡ false)
    × (is_empty c.queue_name ≡ false)
    × (owns_queue c.name c.queue_name ≡ true)

class-Registered : (c : WorkerClass) → Mem c classes → Registered c
unfolding Registered owns_queue
class-Registered c m =
    let (n, q) = class_names_filled c m in
    (n, q, rw (owns_queue, class_by_name c m) (text_eq_self c.queue_name))

when-valid : (b : Bool) (i : CreateInput) → IsValidInput i → All IsValidInput (when b i)
when-valid true i v = (v, tt)
when-valid false i v = tt

All-join :
    (xs ys : List CreateInput)
    → All IsValidInput xs
    → All IsValidInput ys
    → All IsValidInput (xs ++ ys)
All-join xs ys = All-append IsValidInput xs ys

module _ (sha256 : Text → Text) (input : Input) (job : is_empty input.repo_indexing_job_id ≡ false)
    (org : leb_ℤ input.org_id (pos 0) ≡ false) (repo : leb_ℤ input.repo_id (pos 0) ≡ false) where
  core_subjob-valid :
      (rev : Revision) (layer : Text) (c : WorkerClass)
      → IsPlannable rev
      → HasCommit rev
      → is_empty layer ≡ false
      → valid_layer layer ≡ true
      → text_eq layer layer_scip ≡ false
      → Registered c
      → IsValidInput (core_subjob sha256 input rev layer c)
  unfolding is_valid_input core_subjob stable_id fits_layer IsPlannable Registered
  core_subjob-valid rev layer c ready commit named valid other own = ground (arith, job, org, repo)

  scip_subjob-valid :
      (rev : Revision) (project : ScipProject) (i : CreateInput)
      → IsPlannable rev
      → HasCommit rev
      → scip_subjob sha256 input rev project ≡ ok i
      → IsValidInput i
  unfolding is_valid_input scip_subjob stable_id fits_layer IsPlannable Registered valid_layer
      text_eq
  scip_subjob-valid rev project i ready commit h =
      let (u, tested, more) =
        chain_steps
          (reject
            (is_empty project.language
              || is_empty project.indexer
              || is_empty project.scip_worker_class)
            invalid_plan)
          _ h in
      let (c, found, rest) =
        chain_steps
          (require (for_scip_worker_class project.scip_worker_class)
            (no_executor_class project.scip_worker_class))
          _ more in
      let (root, normal, same) =
        chain_steps
          (require (normalize_project_root project.project_root)
            (root_not_relative project.project_root))
          _ rest in
      let own =
        class-Registered c
          ((scip_owner c project.scip_worker_class).0 (require-found _ _ found)).0 in
      let safe =
        (normalize_project_root_idem project.project_root root (require-found _ _ normal)).1 in
      let passed = reject-passed _ _ tested in
      subst IsValidInput (ok-injective same) (ground (arith, job, org, repo, own, safe, passed))

  scip_subjobs-valid :
      (rev : Revision) (projects : List ScipProject) (out : List CreateInput)
      → IsPlannable rev
      → HasCommit rev
      → scip_subjobs sha256 input rev projects ≡ ok out
      → All IsValidInput out
  unfolding scip_subjobs
  scip_subjobs-valid rev [] out ready commit h = subst (All IsValidInput) (ok-injective h) tt
  scip_subjobs-valid rev (p ∷ ps) out ready commit h =
      let (i, others, one, rest, e) = scip_subjobs-cons sha256 input rev p ps out h in
      subst (All IsValidInput) e (
        scip_subjob-valid rev p i ready commit one,
        scip_subjobs-valid rev ps others ready commit rest,
      )

  revision_subjobs-valid :
      (core : WorkerClass) (rev : Revision) (out : List CreateInput)
      → Registered core
      → HasCommit rev
      → revision_subjobs sha256 input core rev ≡ ok out
      → All IsValidInput out
  unfolding valid_layer text_eq
  revision_subjobs-valid core rev out own commit h =
      let (ready, (scip, made, e)) = revision_subjobs-parts sha256 input core rev out h in
      subst (All IsValidInput) e (
        All-join _ _
          (All-join _ _
            (All-join _ _
              (All-join _ _
                (when-valid rev.run_zoekt _
                  (core_subjob-valid rev layer_zoekt core ready commit refl refl refl own))
                (when-valid rev.run_ast_tree_sitter _ (
                  core_subjob-valid rev layer_ast_tree_sitter core ready commit refl refl refl
                    own)))
              (scip_subjobs-valid rev rev.scip_projects scip ready commit made))
            (when-valid rev.run_graph_merge _
              (core_subjob-valid rev layer_graph_merge core ready commit refl refl refl own)))
          (when-valid rev.run_activate _
            (core_subjob-valid rev layer_activate core ready commit refl refl refl own)))

  all_subjobs-valid :
      (core : WorkerClass) (revs : List Revision) (out : List CreateInput)
      → Registered core
      → All HasCommit revs
      → all_subjobs sha256 input core revs ≡ ok out
      → All IsValidInput out
  unfolding all_subjobs
  all_subjobs-valid core [] out own commits h = subst (All IsValidInput) (ok-injective h) tt
  all_subjobs-valid core (rev ∷ revs) out own commits h =
      let (first, others, one, rest, e) = all_subjobs-cons sha256 input core rev revs out h in
      subst (All IsValidInput) e (
        All-join first others (revision_subjobs-valid core rev first own commits.0 one)
          (all_subjobs-valid core revs others own commits.1 rest))

-- If the commit hashes are forty hex digits, every subjob of a plan passes the tests of
-- `upsertWithStatus`.
pub build_valid :
    (sha256 : Text → Text) (input : Input) (out : List CreateInput)
    → All (λ (rev : Revision). is_commit_hash rev.commit_hash ≡ true) input.revisions
    → build sha256 input ≡ ok out
    → All (λ (i : CreateInput). is_valid_input i ≡ true) out
build_valid sha256 input out commits h =
    let (core, found, j, o, r, made, filled) = build-parts sha256 input out h in
    all_subjobs-valid sha256 input j o r core input.revisions out
      (class-Registered core (by_name-Mem (codes "core") core found)) commits made
