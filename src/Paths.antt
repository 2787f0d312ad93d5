-- ===== src/Paths.antt =====
-- The repo-relative project roots: `NormalizeProjectRoot` of
-- internal/backend/indexplanner/planner.go and `safeProjectRoot` of
-- internal/backend/indexsubjobs/store.go, with Go's `path.Clean` that both call.
pub mod Segments
pub mod Roots
pub mod Normal
mod Tests
use codeintel.Base.{
  Bool, true, false, not, ◌&&◌, ◌||◌, Option, none, some, List, [], ◌∷◌, ◌++◌, ℕ, ◌==◌, is_empty,
  if◌then◌else◌, Text, codes, text_eq, has_prefix, contains, trim_space,
}

-- The byte in front of a text, in the first of its segments.
abbrev pub onto_first : ℕ → List Text → List Text
onto_first c [] = (c ∷ []) ∷ []
onto_first c (s ∷ rest) = (c ∷ s) ∷ rest

-- The segments between slashes; one at least.
unfoldable pub split_slash : Text → List Text
split_slash [] = [] ∷ []
split_slash (c ∷ cs) =
    let rest = split_slash cs in if c == b'/' then [] ∷ rest else onto_first c rest

unfoldable pub join_slash : List Text → Text
join_slash [] = []
join_slash (s ∷ []) = s
join_slash (s ∷ t ∷ rest) = s ++ b'/' ∷ join_slash (t ∷ rest)

-- One segment of `path.Clean`, on the segments kept so far, the last one first.
unfoldable pub clean_segment : Bool → List Text → Text → List Text
clean_segment rooted kept s =
    if is_empty s || text_eq s (codes ".")
    then kept
    else if text_eq s (codes "..")
    then elim kept [
      | [] ↦ if rooted then [] else s ∷ []
      | top ∷ below ↦ if text_eq top (codes "..") then s ∷ top ∷ below else below
    ]
    else s ∷ kept

-- The kept segments in order, in front of others.
abbrev pub kept_before : List Text → List Text → List Text
kept_before [] after = after
kept_before (s ∷ below) after = kept_before below (s ∷ after)

unfoldable pub clean_segments : Bool → List Text → List Text → List Text
clean_segments rooted kept [] = kept_before kept []
clean_segments rooted kept (s ∷ rest) = clean_segments rooted (clean_segment rooted kept s) rest

-- `path.Clean`
unfoldable pub clean : Text → Text
clean p =
    let rooted = has_prefix p (codes "/") in
    let out = join_slash (clean_segments rooted [] (split_slash p)) in
    if rooted then b'/' ∷ out else if is_empty out then codes "." else out

-- `strings.TrimLeft(s, "/")`
unfoldable pub trim_left_slash : Text → Text
trim_left_slash [] = []
trim_left_slash (c ∷ cs) = let rest = trim_left_slash cs in if c == b'/' then rest else c ∷ cs

-- `strings.TrimRight(s, "/")`
unfoldable pub trim_right_slash : Text → Text
trim_right_slash [] = []
trim_right_slash (c ∷ cs) =
    let rest = trim_right_slash cs in if is_empty rest && c == b'/' then [] else c ∷ rest

-- `none` is the result ("", false).
unfoldable pub normalize_project_root : Text → Option Text
normalize_project_root given =
    let root = trim_space given in
    if text_eq root (codes ".")
    then some []
    else if is_empty root
    then some []
    else if has_prefix root (codes "/")
        || has_prefix root (codes "\\")
        || contains root (codes "\\")
    then none
    else let cleaned = clean root in
      if text_eq cleaned (codes ".") || is_empty cleaned
      then some []
      else if not (text_eq cleaned root)
          || text_eq cleaned (codes "..")
          || has_prefix cleaned (codes "../")
          || contains cleaned (codes "/../")
      then none
      else some (trim_right_slash (trim_left_slash cleaned))

unfoldable pub trim_project_root : Text → Text
trim_project_root root = elim (normalize_project_root root) [ none ↦ [] | some r ↦ r ]

unfoldable pub safe_project_root : Text → Bool
safe_project_root given =
    let root = trim_space given in
    if is_empty root || text_eq root (codes ".")
    then true
    else if has_prefix root (codes "/")
        || has_prefix root (codes "\\")
        || contains root (codes "\\")
    then false
    else let cleaned = clean root in
      if text_eq cleaned (codes ".") || is_empty cleaned
      then true
      else text_eq cleaned root
        && not (text_eq cleaned (codes ".."))
        && not (has_prefix cleaned (codes "../"))
        && not (contains cleaned (codes "/../"))
