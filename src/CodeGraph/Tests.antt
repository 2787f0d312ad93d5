-- ===== src/CodeGraph/Tests.antt =====
-- Three snapshots of one repository, and the theorems at them.
use mathlib.Core.List.{mem-cons_self, mem-cons_of_mem}
use codeintel.Base.{
  ◌≡◌, refl, true, Option, none, some, List, [], ◌∷◌, Text, codes, text_eq, sort_by,
}
use codeintel.Base.Int.{ℤ, pos}
use codeintel.CodeGraph.{
  CodeGraphRevisionInput, CodeGraphIndexInput, CodeGraphIndexOutput, current_less, format_present,
  is_current_graph_snapshot, status_rank, compare_code_graph_index_for_current,
  sort_code_graph_indexes_for_status, select_current_code_graph_index,
}
use codeintel.CodeGraph.Order.{selected_is_current}

abbrev revision : Text → CodeGraphRevisionInput
revision name = record { revision = name; commit_hash = codes "c0"; activated_at = none }

abbrev snapshot : Text → Text → Option ℤ → List CodeGraphRevisionInput → CodeGraphIndexInput
snapshot id status at revisions = record {
  id = id;
  provider = codes "nebula";
  status = status;
  source_revision = none;
  commit_hash = codes "c0";
  graph_space = none;
  workspace_id = codes "w";
  schema_version = pos 1;
  builder_version = codes "b";
  vertex_count = pos 0;
  edge_count = pos 0;
  anchor_count = pos 0;
  linked_edge_count = pos 0;
  semantic_fact_count = none;
  semantic_edge_count = none;
  semantic_hyperedge_count = none;
  semantic_rejected_fact_count = none;
  semantic_batch_count = none;
  counts = none;
  indexed_at = at;
  superseded_at = none;
  delete_after = none;
  error_message = none;
  revisions = revisions;
}

abbrev failed : CodeGraphIndexInput
failed = snapshot (codes "f") (codes "FAILED") (some (pos 9)) []

abbrev older : CodeGraphIndexInput
older = snapshot (codes "o") (codes "READY") (some (pos 3)) (revision (codes "main") ∷ [])

abbrev newer : CodeGraphIndexInput
newer =
    snapshot (codes "n") (codes "READY") (some (pos 7))
      (revision (codes "main") ∷ revision (codes "dev") ∷ [])

abbrev snapshots : List CodeGraphIndexInput
snapshots = failed ∷ older ∷ newer ∷ []

newer_selected : select_current_code_graph_index snapshots ≡ some newer
unfolding select_current_code_graph_index sort_code_graph_indexes_for_status sort_by current_less
    compare_code_graph_index_for_current is_current_graph_snapshot status_rank text_eq
newer_selected = refl

older_is_current : is_current_graph_snapshot older ≡ true
unfolding is_current_graph_snapshot text_eq
older_is_current = refl

selected_is_current_example : is_current_graph_snapshot newer ≡ true
selected_is_current_example =
    selected_is_current snapshots older newer_selected (mem-cons_of_mem failed mem-cons_self)
      older_is_current

abbrev newer_output : CodeGraphIndexOutput
unfolding format_present
newer_output = format_present newer
