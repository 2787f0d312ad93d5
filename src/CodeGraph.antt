-- ===== src/CodeGraph.antt =====
-- pkg/repoindexstatus/codegraph.go: the code-graph snapshots of a repository. A `time.Time` is
-- known by its Unix milliseconds, which is all that the code reads of it.
pub mod Order
pub mod Format
mod Tests
use codeintel.Base.{
  ℕ, ◌-◌, Bool, true, false, not, ◌&&◌, ◌||◌, Option, none, some, List, [], ◌∷◌, map, length,
  is_empty, is_some, if◌then◌else◌, ltb, Text, codes, text_eq, text_lt, sort_by,
}
use codeintel.Base.Int.{ℤ, pos, negsuc, sub_ℕ, eqb_ℤ, ltb_ℤ}

abbrev pub Time : Type 0
Time = ℤ

pub record CodeGraphRevisionInput : Type 0 where
  pub revision : Text
  pub commit_hash : Text
  pub activated_at : Option Time

pub record CodeGraphCounts : Type 0 where
  pub semantic_facts : Option ℤ
  pub semantic_edges : Option ℤ
  pub semantic_hyperedges : Option ℤ

pub record CodeGraphIndexInput : Type 0 where
  pub id : Text
  pub provider : Text
  pub status : Text
  pub source_revision : Option Text
  pub commit_hash : Text
  pub graph_space : Option Text
  pub workspace_id : Text
  pub schema_version : ℤ
  pub builder_version : Text
  pub vertex_count : ℤ
  pub edge_count : ℤ
  pub anchor_count : ℤ
  pub linked_edge_count : ℤ
  pub semantic_fact_count : Option ℤ
  pub semantic_edge_count : Option ℤ
  pub semantic_hyperedge_count : Option ℤ
  pub semantic_rejected_fact_count : Option ℤ
  pub semantic_batch_count : Option ℤ
  pub counts : Option CodeGraphCounts
  pub indexed_at : Option Time
  pub superseded_at : Option Time
  pub delete_after : Option Time
  pub error_message : Option Text
  pub revisions : List CodeGraphRevisionInput

pub record CodeGraphRevisionOutput : Type 0 where
  pub revision : Text
  pub commit_hash : Text
  pub activated_at : Option Time

pub record CodeGraphIndexOutput : Type 0 where
  pub id : Text
  pub provider : Text
  pub is_active : Bool
  pub status : Text
  pub source_revision : Option Text
  pub commit_hash : Text
  pub graph_space : Option Text
  pub workspace_id : Text
  pub schema_version : ℤ
  pub builder_version : Text
  pub vertex_count : ℤ
  pub edge_count : ℤ
  pub anchor_count : ℤ
  pub linked_edge_count : ℤ
  pub semantic_fact_count : ℤ
  pub semantic_edge_count : ℤ
  pub semantic_hyperedge_count : ℤ
  pub semantic_rejected_fact_count : ℤ
  pub semantic_batch_count : ℤ
  pub active_revision_count : ℕ
  pub active_revisions : List CodeGraphRevisionOutput
  pub indexed_at : Option Time
  pub superseded_at : Option Time
  pub delete_after : Option Time
  pub error_message : Option Text

-- The closure `pickCount`.
unfoldable pub pick_count : Option ℤ → Option ℤ → ℤ
pick_count (some n) agg = n
pick_count none (some n) = n
pick_count none none = pos 0

unfoldable pub revision_output : CodeGraphRevisionInput → CodeGraphRevisionOutput
revision_output r = record {
  revision = r.revision;
  commit_hash = r.commit_hash;
  activated_at = r.activated_at;
}

abbrev pub revision_less : CodeGraphRevisionOutput → CodeGraphRevisionOutput → Bool
revision_less r s = text_lt r.revision s.revision

-- A field of `index.Counts`, absent with the whole aggregate.
unfoldable pub aggregate : (CodeGraphCounts → Option ℤ) → Option CodeGraphCounts → Option ℤ
aggregate field none = none
aggregate field (some c) = field c

unfoldable pub format_present : CodeGraphIndexInput → CodeGraphIndexOutput
format_present index =
    let revisions = sort_by revision_less (map revision_output index.revisions) in
    record {
      id = index.id;
      provider = index.provider;
      is_active = not (is_empty revisions);
      status = index.status;
      source_revision = index.source_revision;
      commit_hash = index.commit_hash;
      graph_space = index.graph_space;
      workspace_id = index.workspace_id;
      schema_version = index.schema_version;
      builder_version = index.builder_version;
      vertex_count = index.vertex_count;
      edge_count = index.edge_count;
      anchor_count = index.anchor_count;
      linked_edge_count = index.linked_edge_count;
      semantic_fact_count =
          pick_count index.semantic_fact_count (aggregate (λ c. c.semantic_facts) index.counts);
      semantic_edge_count =
          pick_count index.semantic_edge_count (aggregate (λ c. c.semantic_edges) index.counts);
      semantic_hyperedge_count =
          pick_count index.semantic_hyperedge_count
            (aggregate (λ c. c.semantic_hyperedges) index.counts);
      semantic_rejected_fact_count = pick_count index.semantic_rejected_fact_count none;
      semantic_batch_count = pick_count index.semantic_batch_count none;
      active_revision_count = length revisions;
      active_revisions = revisions;
      indexed_at = index.indexed_at;
      superseded_at = index.superseded_at;
      delete_after = index.delete_after;
      error_message = index.error_message;
    }

-- A nil pointer gives nil.
unfoldable pub format_code_graph_index : Option CodeGraphIndexInput → Option CodeGraphIndexOutput
format_code_graph_index none = none
format_code_graph_index (some index) = some (format_present index)

abbrev pub bool_to_int : Bool → ℕ
bool_to_int b = if b then 1 else 0

abbrev pub date_ms : Option Time → ℤ
date_ms none = pos 0
date_ms (some d) = d

abbrev pub status_ready : Text
status_ready = codes "READY"

unfoldable pub is_current_graph_snapshot : CodeGraphIndexInput → Bool
is_current_graph_snapshot idx = text_eq idx.status status_ready && not (is_empty idx.revisions)

unfoldable pub status_rank : Text → ℕ
status_rank status =
    if text_eq status status_ready
    then 0
    else if text_eq status (codes "PARTIAL")
    then 1
    else if text_eq status (codes "BUILDING") || text_eq status (codes "PENDING")
    then 2
    else if text_eq status (codes "FAILED")
    then 3
    else if text_eq status (codes "SKIPPED")
    then 4
    else if text_eq status (codes "DELETING")
    then 5
    else 99

-- `if v := …; v != 0 { return v }`
abbrev pub or_else : ℤ → ℤ → ℤ
or_else v rest = if eqb_ℤ v (pos 0) then rest else v

unfoldable pub compare_code_graph_index_for_current : CodeGraphIndexInput → CodeGraphIndexInput → ℤ
compare_code_graph_index_for_current a b =
    or_else
      (sub_ℕ (bool_to_int (is_current_graph_snapshot b))
        (bool_to_int (is_current_graph_snapshot a)))
      (or_else (sub_ℕ (status_rank a.status) (status_rank b.status)) (
        or_else
          (sub_ℕ (bool_to_int (not (is_some b.superseded_at)))
            (bool_to_int (not (is_some a.superseded_at))))
          (let bms = date_ms b.indexed_at in
            let ams = date_ms a.indexed_at in
            if not (eqb_ℤ bms ams) then if ltb_ℤ ams bms then pos 1 else negsuc 0 else pos 0)))

unfoldable pub current_less : CodeGraphIndexInput → CodeGraphIndexInput → Bool
current_less a b = ltb_ℤ (compare_code_graph_index_for_current a b) (pos 0)

unfoldable pub sort_code_graph_indexes_for_status :
    List CodeGraphIndexInput → List CodeGraphIndexInput
sort_code_graph_indexes_for_status indexes = sort_by current_less indexes

-- The first of a list.
abbrev pub first {ℓ} : {A : Type ℓ} → List A → Option A
first [] = none
first (x ∷ _) = some x

unfoldable pub select_current_code_graph_index :
    List CodeGraphIndexInput → Option CodeGraphIndexInput
select_current_code_graph_index indexes =
    if is_empty indexes then none else first (sort_code_graph_indexes_for_status indexes)
