-- ===== src/Planner/Tests.antt =====
-- One revision with every layer, planned and persisted.
use codeintel.Base.{
  ◌≡◌, refl, true, false, none, some, List, [], ◌∷◌, ◌++◌, map, All, Text, codes, text_eq,
  has_prefix, contains, contains_string, space_width, trim_left_from, trim_left, is_blank,
  trim_right, trim_space, ok, err,
}
use codeintel.Base.Int.{pos}
use codeintel.Paths.{
  split_slash, join_slash, clean_segment, clean_segments, clean, trim_left_slash, trim_right_slash,
  normalize_project_root,
}
use codeintel.Workers.{by_name, for_scip_worker_class, find_class}
use codeintel.Subjobs.{
  CreateInput, is_valid_input, is_commit_hash, valid_layer, owns_queue, fits_layer, layer_zoekt,
}
use codeintel.Subjobs.Table.{
  Database, SubjobRow, find_id, has_scope, same_row, same_scope, new_row, insert_row,
  upsert_with_status, upsert_queued,
}
use codeintel.Subjobs.Upserts.{Keyed}
use codeintel.Planner.{
  ScipProject, Revision, Input, clone_is_repo_wide, digits, sprint, hashed_bytes, id_parts, digest,
  stable_id, core_subjob, string_ptr_value,
}
use codeintel.Planner.Build.{
  check_revision, scip_subjob, scip_subjobs, revision_subjobs, all_subjobs, build, write_subjobs,
  plan_and_persist,
}
use codeintel.Planner.Steps.{IsPlannable}
use codeintel.Planner.Layers.{requested_all, build_layers}
use codeintel.Planner.Validity.{build_valid}
use codeintel.Planner.Digests.{NoNul, subjob_identity}
use codeintel.Planner.Persistence.{Stored, persisted_plan}

-- Stands for the hash: the bytes backwards.
abbrev sample_hash : Text → Text
sample_hash [] = []
sample_hash (c ∷ cs) = sample_hash cs ++ c ∷ []

abbrev api_project : ScipProject
api_project = record {
  language = codes "go";
  project_root = codes "api";
  indexer = codes "scip-go";
  scip_worker_class = codes "go";
  toolchain_digest = none;
  image_digest = none;
  project_input_hash = none;
}

abbrev main_revision : Revision
main_revision = record {
  workspace_id = some (codes "w");
  branch = codes "main";
  revision = codes "refs/heads/main";
  commit_hash = codes "0123456789abcdef0123456789abcdef01234567";
  run_clone = false;
  run_zoekt = true;
  run_ast_tree_sitter = true;
  run_graph_merge = true;
  run_activate = true;
  scip_projects = api_project ∷ [];
}

abbrev two_layers : Revision
two_layers = record main_revision {
  run_ast_tree_sitter = false;
  run_graph_merge = false;
  scip_projects = [];
}

abbrev sample_input : Input
sample_input = record {
  repo_indexing_job_id = codes "j";
  org_id = pos 1;
  repo_id = pos 12;
  max_attempts = pos 0;
  revisions = main_revision ∷ [];
}

abbrev small_input : Input
small_input = record sample_input { revisions = two_layers ∷ [] }

sprint_sample : sprint (pos 2047) ≡ codes "2047"
unfolding sprint digits
sprint_sample = refl

unfoldable sample_plan : List CreateInput
unfolding build
sample_plan = elim (build sample_hash sample_input) [ ok out ↦ out | err _ ↦ [] ]

planned : build sample_hash sample_input ≡ ok sample_plan
unfolding sample_plan build all_subjobs revision_subjobs scip_subjobs scip_subjob check_revision
    by_name for_scip_worker_class find_class text_eq contains_string normalize_project_root clean
    split_slash join_slash clean_segments clean_segment has_prefix contains space_width
    trim_left_from trim_left is_blank trim_right trim_space trim_left_slash trim_right_slash
planned = refl

clone_refused :
    build sample_hash
      (record sample_input { revisions = record main_revision { run_clone = true } ∷ [] })
    ≡ err clone_is_repo_wide
unfolding build all_subjobs revision_subjobs check_revision by_name find_class text_eq
clone_refused = refl

build_layers_example :
    (map (λ (i : CreateInput). i.layer) sample_plan ≡ requested_all sample_input.revisions)
    × All IsPlannable sample_input.revisions
build_layers_example = build_layers sample_hash sample_input sample_plan planned

commits : All (λ (rev : Revision). is_commit_hash rev.commit_hash ≡ true) sample_input.revisions
unfolding is_commit_hash
commits = (refl, tt)

build_valid_example : All (λ (i : CreateInput). is_valid_input i ≡ true) sample_plan
build_valid_example = build_valid sample_hash sample_input sample_plan commits planned

abbrev empty_database : Database
empty_database = record { rows = []; ready = λ _. true; reachable = true }

unfoldable sample_after : Database
unfolding plan_and_persist
sample_after = (plan_and_persist sample_hash (some upsert_queued) empty_database small_input).0

unfoldable small_plan : List CreateInput
unfolding build
small_plan = elim (build sample_hash small_input) [ ok out ↦ out | err _ ↦ [] ]

persisted :
    plan_and_persist sample_hash (some upsert_queued) empty_database small_input
    ≡ (sample_after, ok small_plan)
unfolding sample_after small_plan plan_and_persist write_subjobs build all_subjobs revision_subjobs
    scip_subjobs check_revision core_subjob stable_id digest hashed_bytes id_parts sprint digits
    by_name find_class text_eq contains_string upsert_queued upsert_with_status insert_row new_row
    find_id has_scope same_row same_scope is_valid_input is_commit_hash valid_layer owns_queue
    fits_layer
persisted = refl

persisted_plan_example :
    (build sample_hash small_input ≡ ok small_plan)
    × All (Stored sample_after) small_plan
    × ((id : Text) (r : SubjobRow)
        → find_id id empty_database.rows ≡ some r
        → find_id id sample_after.rows ≡ some r)
    × (Keyed empty_database.rows → Keyed sample_after.rows)
persisted_plan_example =
    persisted_plan sample_hash empty_database sample_after small_input small_plan persisted

abbrev no_text : Text
no_text = []

abbrev retried_input : Input
retried_input = record sample_input { max_attempts = pos 5 }

zoekt_NoNul : All NoNul (id_parts sample_input main_revision layer_zoekt (codes "core") [] [] [])
unfolding id_parts sprint digits
zoekt_NoNul = (
  refl,
  (
    refl,
    (refl, (refl, (refl, (refl, (refl, (refl, (refl, (refl, (refl, (refl, (refl, tt))))))))))),
  ),
)

subjob_identity_example :
    (sample_input.repo_indexing_job_id ≡ retried_input.repo_indexing_job_id)
    × (sample_input.org_id ≡ retried_input.org_id)
    × (string_ptr_value main_revision.workspace_id ≡ string_ptr_value main_revision.workspace_id)
    × (sample_input.repo_id ≡ retried_input.repo_id)
    × (main_revision.branch ≡ main_revision.branch)
    × (main_revision.revision ≡ main_revision.revision)
    × (main_revision.commit_hash ≡ main_revision.commit_hash)
    × (layer_zoekt ≡ layer_zoekt)
    × (codes "core" ≡ codes "core")
    × (no_text ≡ no_text)
    × (no_text ≡ no_text)
    × (no_text ≡ no_text)
unfolding id_parts
subjob_identity_example =
    subjob_identity sample_input retried_input main_revision main_revision layer_zoekt layer_zoekt
      (codes "core") (codes "core") no_text no_text no_text no_text no_text no_text refl refl refl
      refl zoekt_NoNul zoekt_NoNul refl
