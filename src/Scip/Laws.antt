-- ===== src/Scip/Laws.antt =====
-- The rows of a projected SCIP index, and its lists of languages.
use mathlib.Core.List.{Perm}
use mathlib.Core.Path.{subst}
use codeintel.Base.{
  suc, ◌≡◌, refl, ◌∙◌, ap, Bool, true, false, not, ◌&&◌, ◌||◌, none, List, [], ◌∷◌, map, keep,
  length, is_empty, arith, All, Text, codes, text_lt, text_lt_irrefl, text_eq, text_eq_iff, sort_by,
  insert_by, IsOrder, IsSortedBy, IsOrder-by_key, sort_by-perm, sort_by-IsSortedBy, length-sort_by,
  All-sort_by, contains_string, IsAscending, sorted_set-IsAscending, contains-sorted_set,
  contains-keep, lex_lt, lex-IsOrder, text-IsLinear,
}
use codeintel.Scip.{
  CodeIntelLanguageIndexInput, ScipCodeIntelIndexInput, FormatScipCodeIntelOptions,
  LanguageIndexRow, unique_sorted, language_row, row_less, pick_languages, format_present,
}

abbrev keys : LanguageIndexRow → List Text
keys r = r.project_root ∷ r.language ∷ r.indexer ∷ []

row_less-keys : (r s : LanguageIndexRow) → row_less r s ≡ lex_lt text_eq text_lt (keys r) (keys s)
unfolding row_less lex_lt
row_less-keys r s = ground (arith, text_eq_iff r.indexer s.indexer, irrefl r.indexer s.indexer)
  where
    irrefl : (a b : Text) → text_eq a b ≡ true → text_lt a b ≡ false
    irrefl a b e = subst (λ z. text_lt a z ≡ false) ((text_eq_iff a b).0 e) (text_lt_irrefl a)

pub row-IsOrder : IsOrder row_less
row-IsOrder =
    IsOrder-by_key keys (lex_lt text_eq text_lt) row_less row_less-keys
      (lex-IsOrder text_eq text_lt text-IsLinear)

-- `uniqueSorted` returns the non-empty strings of its argument, in ascending order and each once.
pub unique_sorted_lem :
    (xs : List Text)
    → IsAscending (unique_sorted xs)
      × ((b : Text)
          → contains_string (unique_sorted xs) b ≡ (not (is_empty b) && contains_string xs b))
unfolding unique_sorted
unique_sorted_lem xs = (
  sorted_set-IsAscending (keep (λ s. not (is_empty s)) xs),
  λ b. contains-sorted_set (keep (λ s. not (is_empty s)) xs) b ∙ contains-keep _ xs b,
)

-- The languages of the rows with a status.
abbrev pub has_status : List LanguageIndexRow → Text → Text → Bool
has_status [] status b = false
has_status (r ∷ rs) status b =
    (text_eq r.status status && text_eq r.language b) || has_status rs status b

pick_contains :
    (rows : List LanguageIndexRow) (status b : Text)
    → contains_string
        (map
          (λ (r : LanguageIndexRow). r.language)
          (keep (λ (r : LanguageIndexRow). text_eq r.status status) rows))
        b
      ≡ has_status rows status b
unfolding contains_string
pick_contains [] status b = refl
pick_contains (r ∷ rs) status b = ground (arith, pick_contains rs status b)

has_status-insert_by :
    (r : LanguageIndexRow) (rs : List LanguageIndexRow) (status b : Text)
    → has_status (insert_by row_less r rs) status b ≡ has_status (r ∷ rs) status b
unfolding insert_by
has_status-insert_by r [] status b = refl
has_status-insert_by r (s ∷ rs) status b = ground (arith, has_status-insert_by r rs status b)

has_status-sort_by :
    (rs : List LanguageIndexRow) (status b : Text)
    → has_status (sort_by row_less rs) status b ≡ has_status rs status b
unfolding sort_by
has_status-sort_by [] status b = refl
has_status-sort_by (r ∷ rs) status b =
    ground
      (arith, has_status-insert_by r (sort_by row_less rs) status b, has_status-sort_by rs status b)

-- Some language index of the input has this status and language.
abbrev pub any_language : List CodeIntelLanguageIndexInput → Text → Text → Bool
any_language [] status b = false
any_language (l ∷ ls) status b =
    (text_eq l.status status && text_eq l.language b) || any_language ls status b

has_status-map :
    (ls : List CodeIntelLanguageIndexInput) (opts : FormatScipCodeIntelOptions) (status b : Text)
    → has_status (map (language_row opts) ls) status b ≡ any_language ls status b
unfolding language_row
has_status-map [] opts status b = refl
has_status-map (l ∷ ls) opts status b = ground (arith, has_status-map ls opts status b)

-- Each list of languages by status is ascending and holds exactly the non-empty languages of the
-- input's rows with that status.
pub languages_by_status :
    (index : ScipCodeIntelIndexInput) (opts : FormatScipCodeIntelOptions) (b : Text)
    → let o = format_present index opts in
      let ls = index.language_indexes in
      IsAscending o.ready_languages
      × (contains_string o.ready_languages b
          ≡ (not (is_empty b) && any_language ls (codes "READY") b))
      × IsAscending o.skipped_languages
      × (contains_string o.skipped_languages b
          ≡ (not (is_empty b) && any_language ls (codes "SKIPPED") b))
      × IsAscending o.failed_languages
      × (contains_string o.failed_languages b
          ≡ (not (is_empty b) && any_language ls (codes "FAILED") b))
unfolding format_present pick_languages
languages_by_status index opts b =
    let ls = index.language_indexes in
    (
      (unique_sorted_lem _).0,
      picked (codes "READY"),
      (unique_sorted_lem _).0,
      picked (codes "SKIPPED"),
      (unique_sorted_lem _).0,
      picked (codes "FAILED"),
    )
  where
    picked :
        (status : Text)
        → contains_string
            (pick_languages
              (sort_by row_less (map (language_row opts) index.language_indexes))
              status)
            b
          ≡ (not (is_empty b) && any_language index.language_indexes status b)
    picked status =
        let rows = sort_by row_less (map (language_row opts) index.language_indexes) in
        (unique_sorted_lem _).1 b
        ∙ ap (λ t. not (is_empty b) && t)
            (pick_contains rows status b
              ∙ has_status-sort_by (map (language_row opts) index.language_indexes) status b
              ∙ has_status-map index.language_indexes opts status b)

length-map :
    (ls : List CodeIntelLanguageIndexInput) (opts : FormatScipCodeIntelOptions)
    → length (map (language_row opts) ls) ≡ length ls
length-map [] opts = refl
length-map (x ∷ xs) opts = ap suc (length-map xs opts)

-- A row shows no path.
abbrev pub NoPaths : LanguageIndexRow → Type 0
NoPaths r = (r.toolchain_path ≡ none) × (r.artifact_path ≡ none)

no_paths :
    (ls : List CodeIntelLanguageIndexInput) (opts : FormatScipCodeIntelOptions)
    → opts.include_artifact_paths ≡ false
    → All NoPaths (map (language_row opts) ls)
unfolding language_row
no_paths [] opts h = tt
no_paths (l ∷ ls) opts h = (ground arith, no_paths ls opts h)

-- The projection keeps one row for each language index, ordered by project root, language and
-- indexer, and counts them; without the option no row shows a path of the worker.
pub format_rows :
    (index : ScipCodeIntelIndexInput) (opts : FormatScipCodeIntelOptions)
    → let o = format_present index opts in
      Perm o.language_indexes (map (language_row opts) index.language_indexes)
      × IsSortedBy row_less o.language_indexes
      × (o.project_count ≡ length index.language_indexes)
      × (opts.include_artifact_paths ≡ false → All NoPaths o.language_indexes)
unfolding format_present
format_rows index opts =
    let rows = map (language_row opts) index.language_indexes in
    (
      sort_by-perm row_less rows,
      sort_by-IsSortedBy row_less row-IsOrder rows,
      length-sort_by row_less rows ∙ length-map index.language_indexes opts,
      λ h. All-sort_by row_less NoPaths rows (no_paths index.language_indexes opts h),
    )
