-- ===== src/Planner/Steps.antt =====
-- The parts of a plan that is made: what each step was given and gave.
use codeintel.Base.{
  ◌≡◌, sym, ap, ◌∙◌, true, false, ◌||◌, Option, none, some, List, ◌∷◌, ◌++◌, is_empty, arith, Text,
  codes, ok, reject, chain_steps, ok-injective, reject-passed,
}
use codeintel.Base.Int.{pos, leb_ℤ}
use codeintel.Workers.{WorkerClass, by_name}
use codeintel.Subjobs.{
  CreateInput, is_blank_ptr, layer_zoekt, layer_ast_tree_sitter, layer_graph_merge, layer_activate,
}
use codeintel.Planner.{ScipProject, Revision, Input, invalid_plan, core_not_registered, core_subjob}
use codeintel.Planner.Build.{
  has_graph_producer, has_producer, check_revision, when, require, scip_subjob, scip_subjobs,
  revision_subjobs, all_subjobs, build,
}

-- A revision that the planner takes.
unfoldable pub IsPlannable : Revision → Type 0
IsPlannable rev =
    (is_empty rev.branch ≡ false)
    × (is_empty rev.revision ≡ false)
    × (is_empty rev.commit_hash ≡ false)
    × (is_blank_ptr rev.workspace_id ≡ false)
    × (rev.run_clone ≡ false)
    × (rev.run_graph_merge ≡ true → has_graph_producer rev ≡ true)
    × (rev.run_activate ≡ true → has_producer rev ≡ true)

check-IsPlannable : (rev : Revision) (u : Unit {0}) → check_revision rev ≡ ok u → IsPlannable rev
unfolding check_revision IsPlannable
check-IsPlannable rev u h = (
  ground (arith, h),
  ground (arith, h),
  ground (arith, h),
  ground (arith, h),
  ground (arith, h),
  λ m. ground (arith, h, m),
  λ m. ground (arith, h, m),
)

pub require-found {ε ℓ} :
    {E : Type ε} {A : Type ℓ} (o : Option A) (e : E) {a : A} → require o e ≡ ok a → o ≡ some a
require-found none e h = cc
require-found (some b) e h = ap some (ok-injective h)

module _ (sha256 : Text → Text) (input : Input) where
  -- The first project's subjob and the others.
  pub scip_subjobs-cons :
      (rev : Revision) (p : ScipProject) (ps : List ScipProject) (out : List CreateInput)
      → scip_subjobs sha256 input rev (p ∷ ps) ≡ ok out
      → (i : CreateInput) × (others : List CreateInput) × (scip_subjob sha256 input rev p ≡ ok i)
        × (scip_subjobs sha256 input rev ps ≡ ok others)
        × (i ∷ others ≡ out)
  unfolding scip_subjobs
  scip_subjobs-cons rev p ps out h =
      let (i, one, more) = chain_steps (scip_subjob sha256 input rev p) _ h in
      let (others, rest, whole) = chain_steps (scip_subjobs sha256 input rev ps) _ more in
      (i, others, one, rest, ok-injective whole)

  -- The subjobs of one revision, in their parts.
  pub revision_subjobs-parts :
      (core : WorkerClass) (rev : Revision) (out : List CreateInput)
      → revision_subjobs sha256 input core rev ≡ ok out
      → IsPlannable rev
        × ((scip : List CreateInput) × (scip_subjobs sha256 input rev rev.scip_projects ≡ ok scip)
            × (when rev.run_zoekt (core_subjob sha256 input rev layer_zoekt core)
                  ++ when rev.run_ast_tree_sitter
                      (core_subjob sha256 input rev layer_ast_tree_sitter core)
                  ++ scip
                  ++ when rev.run_graph_merge (core_subjob sha256 input rev layer_graph_merge core)
                  ++ when rev.run_activate (core_subjob sha256 input rev layer_activate core)
                ≡ out))
  unfolding revision_subjobs
  revision_subjobs-parts core rev out h =
      let (u, checked, more) = chain_steps (check_revision rev) _ h in
      let (scip, made, whole) =
        chain_steps (scip_subjobs sha256 input rev rev.scip_projects) _ more in
      (check-IsPlannable rev u checked, (scip, made, ok-injective whole))

  pub all_subjobs-cons :
      (core : WorkerClass) (rev : Revision) (revs : List Revision) (out : List CreateInput)
      → all_subjobs sha256 input core (rev ∷ revs) ≡ ok out
      → (first : List CreateInput) × (others : List CreateInput) × (revision_subjobs sha256 input
            core rev
          ≡ ok first)
        × (all_subjobs sha256 input core revs ≡ ok others)
        × (first ++ others ≡ out)
  unfolding all_subjobs
  all_subjobs-cons core rev revs out h =
      let (first, one, more) = chain_steps (revision_subjobs sha256 input core rev) _ h in
      let (others, rest, whole) = chain_steps (all_subjobs sha256 input core revs) _ more in
      (first, others, one, rest, ok-injective whole)

  pub build-parts :
      (out : List CreateInput)
      → build sha256 input ≡ ok out
      → (core : WorkerClass) × (by_name (codes "core") ≡ some core)
        × (is_empty input.repo_indexing_job_id ≡ false)
        × (leb_ℤ input.org_id (pos 0) ≡ false)
        × (leb_ℤ input.repo_id (pos 0) ≡ false)
        × (all_subjobs sha256 input core input.revisions ≡ ok out)
        × (is_empty out ≡ false)
  unfolding build
  build-parts out h =
      let (u, tested, more) =
        chain_steps
          (reject
            (is_empty input.repo_indexing_job_id
              || leb_ℤ input.org_id (pos 0)
              || leb_ℤ input.repo_id (pos 0)
              || is_empty input.revisions)
            invalid_plan)
          _ h in
      let (core, found, rest) =
        chain_steps (require (by_name (codes "core")) core_not_registered) _ more in
      let (all, made, last) = chain_steps (all_subjobs sha256 input core input.revisions) _ rest in
      let (v, filled, same) = chain_steps (reject (is_empty all) invalid_plan) _ last in
      let passed = reject-passed _ _ tested in
      let e = ok-injective same in
      (
        core,
        require-found _ _ found,
        ground (arith, passed),
        ground (arith, passed),
        ground (arith, passed),
        made ∙ ap ok e,
        ap is_empty (sym e) ∙ reject-passed _ _ filled,
      )
