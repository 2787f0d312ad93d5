-- ===== src/Delta/Files.antt =====
-- delta_plan.go and the row type of manifest_files.go: the plan's types, the manifest by path, and
-- the project roots.
use codeintel.Base.{
  Bool, not, Option, none, some, List, [], ◌∷◌, map, is_empty, if◌then◌else◌, Text, codes, text_eq,
  sort_strings, sorted_set,
}

pub record ManifestFileRow : Type 0 where
  pub path : Text
  pub content_hash : Text
  pub language : Option Text
  pub project_root : Option Text
  pub generated : Bool
  pub vendor : Bool
  pub test : Bool

pub record DeltaZoektPlan : Type 0 where
  pub strategy : Text
  pub files : List Text
  pub reason : Option Text

pub record DeltaScipPlan : Type 0 where
  pub strategy : Text
  pub project_roots : List Text
  pub files : List Text
  pub reason : Option Text

pub record DeltaGraphPlan : Type 0 where
  pub strategy : Text
  pub files : List Text
  pub deleted_files : List Text

pub record DeltaSemanticPlan : Type 0 where
  pub strategy : Text
  pub files : List Text
  pub reason : Option Text

pub record DeltaReindexPlan : Type 0 where
  pub mode : Text
  pub added_files : List Text
  pub changed_files : List Text
  pub deleted_files : List Text
  pub unchanged_files : List Text
  pub zoekt : DeltaZoektPlan
  pub scip : DeltaScipPlan
  pub graph : DeltaGraphPlan
  pub semantic : DeltaSemanticPlan

abbrev pub noop : Text
noop = codes "NOOP"

abbrev pub delta_files : Text
delta_files = codes "DELTA_FILES"

abbrev pub full_repo : Text
full_repo = codes "FULL_REPO"

abbrev pub full_repo_rewrite : Text
full_repo_rewrite = codes "FULL_REPO_REWRITE"

abbrev pub skipped : Text
skipped = codes "SKIPPED"

abbrev pub FileMap : Type 0
FileMap = List ManifestFileRow

-- `files[path]`
unfoldable pub lookup : Text → FileMap → Option ManifestFileRow
lookup p [] = none
lookup p (f ∷ m) = if text_eq f.path p then some f else lookup p m

-- `out[file.Path] = file`
unfoldable pub put : ManifestFileRow → FileMap → FileMap
put file [] = file ∷ []
put file (f ∷ m) = if text_eq f.path file.path then file ∷ m else f ∷ put file m

unfoldable pub fill : FileMap → List ManifestFileRow → FileMap
unfolding put
fill out [] = out
fill out (file ∷ files) = fill (if not (is_empty file.path) then put file out else out) files

unfoldable pub manifest_file_map : List ManifestFileRow → FileMap
unfolding fill
manifest_file_map files = fill [] files

abbrev pub paths : FileMap → List Text
paths m = map (λ (f : ManifestFileRow). f.path) m

unfoldable pub sorted_manifest_keys : FileMap → List Text
unfolding sort_strings
sorted_manifest_keys values = sort_strings (paths values)

unfoldable pub root_of : ManifestFileRow → Text
root_of file = elim file.project_root [
  | none ↦ codes "."
  | some r ↦ if not (is_empty r) then r else codes "."
]

unfoldable pub unique_manifest_project_roots : List ManifestFileRow → List Text
unfolding root_of sorted_set
unique_manifest_project_roots files = sorted_set (map root_of files)

unfoldable pub select_files : FileMap → List Text → List ManifestFileRow
unfolding lookup
select_files files [] = []
select_files files (p ∷ ps) =
    let rest = select_files files ps in
    elim (lookup p files) [ none ↦ rest | some file ↦ file ∷ rest ]

unfoldable pub unique_manifest_project_roots_for_paths : FileMap → List Text → List Text
unfolding select_files unique_manifest_project_roots
unique_manifest_project_roots_for_paths files ps =
    unique_manifest_project_roots (select_files files ps)
