-- ===== src/Scip.antt =====
-- pkg/repoindexstatus/scip.go: the projection of a SCIP index and of its language rows. The
-- times, counts and texts that are only copied keep their types of codegraph.go's model.
pub mod Laws
mod Tests
use codeintel.Base.{
  ℕ, ◌&&◌, Bool, true, false, not, Option, none, some, List, [], ◌∷◌, map, keep, length, is_empty,
  if◌then◌else◌, Text, codes, text_eq, text_lt, sort_by, sorted_set,
}
use codeintel.Base.Int.{ℤ}
use codeintel.CodeGraph.{Time}

pub record CodeIntelLanguageIndexInput : Type 0 where
  pub language : Text
  pub project_root : Text
  pub indexer : Text
  pub worker_class : Option Text
  pub status : Text
  pub artifact_path : Option Text
  pub toolchain_fingerprint : Option Text
  pub toolchain_version : Option Text
  pub toolchain_path : Option Text
  pub toolchain_sha256 : Option Text
  pub duration_ms : Option ℤ
  pub error_message : Option Text

pub record ScipCodeIntelIndexInput : Type 0 where
  pub id : Text
  pub kind : Text
  pub status : Text
  pub revision : Text
  pub commit_hash : Text
  pub language_count : ℤ
  pub symbol_count : ℤ
  pub occurrence_count : ℤ
  pub relationship_count : ℤ
  pub indexed_at : Option Time
  pub error_message : Option Text
  pub language_indexes : List CodeIntelLanguageIndexInput

pub record FormatScipCodeIntelOptions : Type 0 where
  pub include_artifact_paths : Bool

pub record LanguageIndexRow : Type 0 where
  pub language : Text
  pub project_root : Text
  pub indexer : Text
  pub worker_class : Option Text
  pub status : Text
  pub toolchain_fingerprint : Option Text
  pub toolchain_version : Option Text
  pub toolchain_path : Option Text
  pub toolchain_sha256 : Option Text
  pub duration_ms : Option ℤ
  pub error_message : Option Text
  pub artifact_path : Option Text

pub record ScipCodeIntelIndexOutput : Type 0 where
  pub id : Text
  pub kind : Text
  pub status : Text
  pub revision : Text
  pub commit_hash : Text
  pub language_count : ℤ
  pub project_count : ℕ
  pub detected_languages : List Text
  pub ready_languages : List Text
  pub skipped_languages : List Text
  pub failed_languages : List Text
  pub symbol_count : ℤ
  pub occurrence_count : ℤ
  pub relationship_count : ℤ
  pub indexed_at : Option Time
  pub error_message : Option Text
  pub language_indexes : List LanguageIndexRow

-- The loop skips empty strings and those seen before, and sorts what is left.
unfoldable pub unique_sorted : List Text → List Text
unfolding sorted_set
unique_sorted xs = sorted_set (keep (λ s. not (is_empty s)) xs)

-- The body of the first loop.
unfoldable pub language_row :
    FormatScipCodeIntelOptions → CodeIntelLanguageIndexInput → LanguageIndexRow
language_row opts li =
    let row : LanguageIndexRow = record {
      language = li.language;
      project_root = li.project_root;
      indexer = li.indexer;
      worker_class = li.worker_class;
      status = li.status;
      toolchain_fingerprint = li.toolchain_fingerprint;
      toolchain_version = li.toolchain_version;
      toolchain_path = none;
      toolchain_sha256 = li.toolchain_sha256;
      duration_ms = li.duration_ms;
      error_message = li.error_message;
      artifact_path = none;
    } in
    if opts.include_artifact_paths
    then record row { toolchain_path = li.toolchain_path; artifact_path = li.artifact_path }
    else row

unfoldable pub row_less : LanguageIndexRow → LanguageIndexRow → Bool
row_less r s =
    if not (text_eq r.project_root s.project_root)
    then text_lt r.project_root s.project_root
    else if not (text_eq r.language s.language)
    then text_lt r.language s.language
    else text_lt r.indexer s.indexer

-- The closure `pickLanguages`.
unfoldable pub pick_languages : List LanguageIndexRow → Text → List Text
pick_languages rows status = unique_sorted (
    map (λ (r : LanguageIndexRow). r.language)
      (keep (λ (r : LanguageIndexRow). text_eq r.status status) rows))

unfoldable pub format_present :
    ScipCodeIntelIndexInput → FormatScipCodeIntelOptions → ScipCodeIntelIndexOutput
format_present index opts =
    let rows = sort_by row_less (map (language_row opts) index.language_indexes) in
    record {
      id = index.id;
      kind = index.kind;
      status = index.status;
      revision = index.revision;
      commit_hash = index.commit_hash;
      language_count = index.language_count;
      project_count = length rows;
      detected_languages = unique_sorted (map (λ (r : LanguageIndexRow). r.language) rows);
      ready_languages = pick_languages rows (codes "READY");
      skipped_languages = pick_languages rows (codes "SKIPPED");
      failed_languages = pick_languages rows (codes "FAILED");
      symbol_count = index.symbol_count;
      occurrence_count = index.occurrence_count;
      relationship_count = index.relationship_count;
      indexed_at = index.indexed_at;
      error_message = index.error_message;
      language_indexes = rows;
    }

unfoldable pub format_scip_code_intel_index :
    Option ScipCodeIntelIndexInput → FormatScipCodeIntelOptions → Option ScipCodeIntelIndexOutput
format_scip_code_intel_index none opts = none
format_scip_code_intel_index (some index) opts = some (format_present index opts)
