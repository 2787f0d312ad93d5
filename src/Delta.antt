-- ===== src/Delta.antt =====
-- internal/backend/repoindexmanager/delta_plan.go: the plan of a re-index from two manifests. A
-- Go map keyed by path is a list of rows in which a later row replaces the one with its path; the
-- loops over maps end in sorted slices, so their order plays no part. A nil slice is `[]`.
mod Files
pub mod Maps
pub mod Classes
pub mod Plans
pub mod Languages
mod Tests
unfoldable pub use Files.*
use codeintel.Base.{
  Bool, true, false, not, ◌&&◌, ◌||◌, Option, none, some, List, [], ◌∷◌, ◌++◌, map, is_empty,
  is_some, if◌then◌else◌, Text, codes, text_eq, sort_strings, sorted_set,
}

-- The four slices that the loops fill.
pub record Changes : Type 0 where
  pub added : List Text
  pub changed : List Text
  pub unchanged : List Text

-- The loop over `currentByPath`.
unfoldable pub classify : FileMap → FileMap → Changes
unfolding lookup
classify previous [] = record { added = []; changed = []; unchanged = [] }
classify previous (curr ∷ rest) =
    let c = classify previous rest in
    elim (lookup curr.path previous) [
      | none ↦ record c { added = curr.path ∷ c.added }
      | some prev ↦
          if not (text_eq prev.content_hash curr.content_hash)
          then record c { changed = curr.path ∷ c.changed }
          else record c { unchanged = curr.path ∷ c.unchanged }
    ]

-- The loop over `previousByPath`.
unfoldable pub removed : FileMap → FileMap → List Text
unfolding lookup
removed current [] = []
removed current (prev ∷ rest) =
    let later = removed current rest in
    if not (is_some (lookup prev.path current)) then prev.path ∷ later else later

abbrev pub no_previous : Text
no_previous = codes "No previous index manifest exists."

abbrev pub rewrites : Text
rewrites =
    codes "Zoekt rewrites repository shard files because file-level shard delta is not enabled."

unfoldable pub full_plan : List ManifestFileRow → DeltaReindexPlan
full_plan current =
    let all_files = sorted_manifest_keys (manifest_file_map current) in
    record {
      mode = codes "FULL";
      added_files = all_files;
      changed_files = [];
      deleted_files = [];
      unchanged_files = [];
      zoekt = record { strategy = full_repo; files = all_files; reason = some no_previous };
      scip = record {
        strategy = full_repo;
        project_roots = unique_manifest_project_roots current;
        files = all_files;
        reason = some no_previous;
      };
      graph = record { strategy = delta_files; files = all_files; deleted_files = [] };
      semantic = record { strategy = skipped; files = []; reason = none };
    }

-- The plan from the sorted slices.
unfoldable pub plan_of_changes :
    FileMap → Bool → List Text → List Text → List Text → List Text → DeltaReindexPlan
plan_of_changes current_by_path supports_delta added changed deleted unchanged =
    let touched = added ++ changed in
    let quiet = is_empty added && is_empty changed && is_empty deleted in
    record {
      mode = if quiet then noop else codes "DELTA";
      added_files = added;
      changed_files = changed;
      deleted_files = deleted;
      unchanged_files = unchanged;
      zoekt =
          if quiet
          then record { strategy = noop; files = []; reason = none }
          else if supports_delta
          then record { strategy = delta_files; files = touched; reason = none }
          else record { strategy = full_repo_rewrite; files = touched; reason = some rewrites };
      scip =
          if quiet
          then record { strategy = noop; project_roots = []; files = []; reason = none }
          else record {
            strategy = codes "PROJECT_ROOTS";
            project_roots = unique_manifest_project_roots_for_paths current_by_path touched;
            files = touched;
            reason = none;
          };
      graph =
          if quiet
          then record { strategy = noop; files = []; deleted_files = deleted }
          else record { strategy = delta_files; files = touched; deleted_files = deleted };
      semantic = record { strategy = skipped; files = []; reason = none };
    }

unfoldable pub build_manifest_delta_plan :
    List ManifestFileRow → List ManifestFileRow → Bool → DeltaReindexPlan
build_manifest_delta_plan previous current supports_delta =
    if is_empty previous
    then full_plan current
    else (let current_by_path = manifest_file_map current in
        let previous_by_path = manifest_file_map previous in
        let c = classify previous_by_path current_by_path in
        plan_of_changes current_by_path supports_delta (sort_strings c.added)
          (sort_strings c.changed) (sort_strings (removed current_by_path previous_by_path))
          (sort_strings c.unchanged))

abbrev pub empty_plan : DeltaReindexPlan
empty_plan = record {
  mode = [];
  added_files = [];
  changed_files = [];
  deleted_files = [];
  unchanged_files = [];
  zoekt = record { strategy = []; files = []; reason = none };
  scip = record { strategy = []; project_roots = []; files = []; reason = none };
  graph = record { strategy = []; files = []; deleted_files = [] };
  semantic = record { strategy = []; files = []; reason = none };
}

unfoldable pub force_semantic_repair_plan :
    Option DeltaReindexPlan → List ManifestFileRow → Text → DeltaReindexPlan
force_semantic_repair_plan plan current reason =
    let all_files = sorted_manifest_keys (manifest_file_map current) in
    let given : DeltaReindexPlan = elim plan [ none ↦ empty_plan | some p ↦ p ] in
    record given {
      mode = codes "SEMANTIC_REPAIR";
      zoekt = record { strategy = noop; files = []; reason = none };
      scip = record {
        strategy = full_repo;
        project_roots = unique_manifest_project_roots current;
        files = all_files;
        reason = some reason;
      };
      graph = record { strategy = delta_files; files = all_files; deleted_files = [] };
      semantic = record { strategy = skipped; files = []; reason = some reason };
    }

pub data PlanError : Type 0 where
  nil_plan empty_strategy : PlanError
  unsupported_zoekt : Text → PlanError

-- `none` is a nil error.
unfoldable pub validate : Option DeltaReindexPlan → Option PlanError
validate none = some nil_plan
validate (some p) =
    if is_empty p.mode
      || is_empty p.zoekt.strategy
      || is_empty p.scip.strategy
      || is_empty p.graph.strategy
      || is_empty p.semantic.strategy
    then some empty_strategy
    else if text_eq p.zoekt.strategy noop
        || text_eq p.zoekt.strategy delta_files
        || text_eq p.zoekt.strategy full_repo
        || text_eq p.zoekt.strategy full_repo_rewrite
    then none
    else some (unsupported_zoekt p.zoekt.strategy)
