-- ===== src/Planner/Layers.antt =====
-- What a plan that is made holds: its layers in order, and that every revision passed the tests.
use mathlib.Core.Path.{ap₂}
use codeintel.Base.{
  ◌≡◌, refl, sym, ap, ◌∙◌, Bool, true, false, List, [], ◌∷◌, ◌++◌, map, arith, All, Text, ok,
  ok-injective,
}
use codeintel.Workers.{WorkerClass}
use codeintel.Subjobs.{
  CreateInput, layer_zoekt, layer_ast_tree_sitter, layer_scip, layer_graph_merge, layer_activate,
}
use codeintel.Planner.{ScipProject, Revision, Input, core_subjob}
use codeintel.Planner.Build.{when, scip_subjob, scip_subjobs, revision_subjobs, all_subjobs, build}
use codeintel.Planner.Steps.{
  IsPlannable, scip_subjobs-cons, revision_subjobs-parts, all_subjobs-cons, build-parts,
}

-- The layers that a revision asks for.
abbrev pub requested : Revision → List Text
requested rev =
    when rev.run_zoekt layer_zoekt
    ++ when rev.run_ast_tree_sitter layer_ast_tree_sitter
    ++ map (λ (_ : ScipProject). layer_scip) rev.scip_projects
    ++ when rev.run_graph_merge layer_graph_merge
    ++ when rev.run_activate layer_activate

abbrev pub requested_all : List Revision → List Text
requested_all [] = []
requested_all (rev ∷ rest) = requested rev ++ requested_all rest

abbrev layers : List CreateInput → List Text
layers xs = map (λ (i : CreateInput). i.layer) xs

layers-append : (xs ys : List CreateInput) → layers (xs ++ ys) ≡ layers xs ++ layers ys
layers-append [] ys = refl
layers-append (x ∷ xs) ys = ap (λ z. x.layer ∷ z) (layers-append xs ys)

layers-join :
    (xs ys : List CreateInput) {us vs : List Text}
    → layers xs ≡ us
    → layers ys ≡ vs
    → layers (xs ++ ys) ≡ us ++ vs
layers-join xs ys h k = layers-append xs ys ∙ ap₂ (λ a b. a ++ b) h k

module _ (sha256 : Text → Text) (input : Input) where
  scip_subjob-layer :
      (rev : Revision) (project : ScipProject) (i : CreateInput)
      → scip_subjob sha256 input rev project ≡ ok i
      → i.layer ≡ layer_scip
  unfolding scip_subjob
  scip_subjob-layer rev project i h = ground (arith, h)

  scip_subjobs-layers :
      (rev : Revision) (projects : List ScipProject) (out : List CreateInput)
      → scip_subjobs sha256 input rev projects ≡ ok out
      → layers out ≡ map (λ (_ : ScipProject). layer_scip) projects
  unfolding scip_subjobs
  scip_subjobs-layers rev [] out h = ap layers (sym (ok-injective h))
  scip_subjobs-layers rev (p ∷ ps) out h =
      let (i, others, one, rest, e) = scip_subjobs-cons sha256 input rev p ps out h in
      ap layers (sym e)
      ∙ ap₂ (λ x xs. x ∷ xs) (scip_subjob-layer rev p i one)
          (scip_subjobs-layers rev ps others rest)

  layers-when :
      (b : Bool) (rev : Revision) (layer : Text) (core : WorkerClass)
      → layers (when b (core_subjob sha256 input rev layer core)) ≡ when b layer
  unfolding core_subjob
  layers-when true rev layer core = refl
  layers-when false rev layer core = refl

  revision_subjobs-layers :
      (core : WorkerClass) (rev : Revision) (out : List CreateInput)
      → revision_subjobs sha256 input core rev ≡ ok out
      → layers out ≡ requested rev
  revision_subjobs-layers core rev out h =
      let (ready, (scip, made, e)) = revision_subjobs-parts sha256 input core rev out h in
      ap layers (sym e)
      ∙ layers-join _ _
          (layers-join _ _
            (layers-join _ _
              (layers-join _ _ (layers-when rev.run_zoekt rev layer_zoekt core)
                (layers-when rev.run_ast_tree_sitter rev layer_ast_tree_sitter core))
              (scip_subjobs-layers rev rev.scip_projects scip made))
            (layers-when rev.run_graph_merge rev layer_graph_merge core))
          (layers-when rev.run_activate rev layer_activate core)

  all_subjobs-layers :
      (core : WorkerClass) (revs : List Revision) (out : List CreateInput)
      → all_subjobs sha256 input core revs ≡ ok out
      → (layers out ≡ requested_all revs) × All IsPlannable revs
  unfolding all_subjobs
  all_subjobs-layers core [] out h = (ap layers (sym (ok-injective h)), tt)
  all_subjobs-layers core (rev ∷ revs) out h =
      let (first, others, one, rest, e) = all_subjobs-cons sha256 input core rev revs out h in
      let (more, ready) = all_subjobs-layers core revs others rest in
      (
        ap layers (sym e)
            ∙ layers-append first others
            ∙ ap₂ (λ xs ys. xs ++ ys) (revision_subjobs-layers core rev first one) more,
        ((revision_subjobs-parts sha256 input core rev first one).0, ready),
      )

-- A plan holds, for each revision in order, exactly the layers that it asks for; a revision is named
-- and in a workspace, asks for no clone, and merges or activates only what another layer produces.
pub build_layers :
    (sha256 : Text → Text) (input : Input) (out : List CreateInput)
    → build sha256 input ≡ ok out
    → (map (λ (i : CreateInput). i.layer) out ≡ requested_all input.revisions)
      × All IsPlannable input.revisions
build_layers sha256 input out h =
    let (core, found, j, o, r, made, filled) = build-parts sha256 input out h in
    all_subjobs-layers sha256 input core input.revisions out made
