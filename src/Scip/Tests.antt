-- ===== src/Scip/Tests.antt =====
-- A SCIP index with three language rows, and the theorems at it.
use mathlib.Core.List.{Perm}
use codeintel.Base.{
  ◌≡◌, refl, false, none, [], ◌∷◌, map, length, All, Text, codes, text_eq, text_lt, contains_string,
  sort_by, sorted_set, IsSortedBy,
}
use codeintel.Base.Int.{pos}
use codeintel.Scip.{
  CodeIntelLanguageIndexInput, ScipCodeIntelIndexInput, FormatScipCodeIntelOptions, row_less,
  language_row, unique_sorted, pick_languages, format_present,
}
use codeintel.Scip.Laws.{NoPaths, format_rows}

abbrev language : Text → Text → Text → CodeIntelLanguageIndexInput
language name root status = record {
  language = name;
  project_root = root;
  indexer = codes "scip";
  worker_class = none;
  status = status;
  artifact_path = none;
  toolchain_fingerprint = none;
  toolchain_version = none;
  toolchain_path = none;
  toolchain_sha256 = none;
  duration_ms = none;
  error_message = none;
}

abbrev index : ScipCodeIntelIndexInput
index = record {
  id = codes "i";
  kind = codes "SCIP";
  status = codes "READY";
  revision = codes "main";
  commit_hash = codes "c0";
  language_count = pos 3;
  symbol_count = pos 0;
  occurrence_count = pos 0;
  relationship_count = pos 0;
  indexed_at = none;
  error_message = none;
  language_indexes =
      language (codes "python") (codes "b") (codes "READY")
      ∷ language (codes "go") (codes "a") (codes "READY")
      ∷ language (codes "ruby") (codes "a") (codes "FAILED")
      ∷ [];
}

abbrev hidden : FormatScipCodeIntelOptions
hidden = record { include_artifact_paths = false }

ready_sample : (format_present index hidden).ready_languages ≡ codes "go" ∷ codes "python" ∷ []
unfolding format_present pick_languages unique_sorted language_row row_less sort_by text_eq text_lt
    contains_string sorted_set
ready_sample = refl

format_rows_example :
    let o = format_present index hidden in
    Perm o.language_indexes (map (language_row hidden) index.language_indexes)
    × IsSortedBy row_less o.language_indexes
    × (o.project_count ≡ length index.language_indexes)
    × (hidden.include_artifact_paths ≡ false → All NoPaths o.language_indexes)
format_rows_example = format_rows index hidden
