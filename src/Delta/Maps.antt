-- ===== src/Delta/Maps.antt =====
-- The maps of the manifests: look-ups after insertion, and distinct keys.
use codeintel.Base.{
  ◌≡◌, refl, ◌∙◌, inl, inr, not, ◌&&◌, ◌||◌, Option, none, some, List, [], ◌∷◌, is_empty, is_some,
  if◌then◌else◌, arith, Bool-cases, Text, text_eq, text_eq_iff, contains_string, AllDistinct,
}
use codeintel.Delta.{ManifestFileRow, FileMap, lookup, put, fill, manifest_file_map, paths}

-- The last row of a manifest with a path; rows with an empty path do not count.
abbrev pub last_row : Text → List ManifestFileRow → Option ManifestFileRow
last_row p [] = none
last_row p (f ∷ fs) =
    let later = last_row p fs in
    elim later [
      | none ↦ if not (is_empty f.path) && text_eq f.path p then some f else none
      | some g ↦ some g
    ]

lookup-put :
    (p : Text) (f : ManifestFileRow) (m : FileMap)
    → lookup p (put f m) ≡ (if text_eq f.path p then some f else lookup p m)
unfolding lookup put
lookup-put p f [] = refl
lookup-put p f (g ∷ m) =
    ground (
      arith,
      lookup-put p f m,
      text_eq_iff g.path f.path,
      text_eq_iff g.path p,
      text_eq_iff f.path p,
    )

lookup-fill :
    (p : Text) (m : FileMap) (fs : List ManifestFileRow)
    → lookup p (fill m fs) ≡ elim (last_row p fs) [ none ↦ lookup p m | some g ↦ some g ]
unfolding fill
lookup-fill p m [] = refl
lookup-fill p m (f ∷ fs) =
    ground (arith, lookup-fill p (put f m) fs, lookup-fill p m fs, lookup-put p f m)

-- The map of a manifest holds the last row of each non-empty path.
pub lookup-manifest_file_map :
    (p : Text) (files : List ManifestFileRow)
    → lookup p (manifest_file_map files) ≡ last_row p files
unfolding manifest_file_map lookup
lookup-manifest_file_map p files = lookup-fill p [] files ∙ same (last_row p files)
  where
    same : (o : Option ManifestFileRow) → (elim o [ none ↦ none | some g ↦ some g ]) ≡ o
    same none = refl
    same (some g) = refl

pub contains-paths : (p : Text) (m : FileMap) → contains_string (paths m) p ≡ is_some (lookup p m)
unfolding contains_string lookup
contains-paths p [] = refl
contains-paths p (f ∷ m) = ground (arith, contains-paths p m)

contains-put :
    (p : Text) (f : ManifestFileRow) (m : FileMap)
    → contains_string (paths (put f m)) p ≡ (text_eq f.path p || contains_string (paths m) p)
contains-put p f m =
    ground (arith, contains-paths p (put f m), contains-paths p m, lookup-put p f m)

put-AllDistinct :
    (f : ManifestFileRow) (m : FileMap) → AllDistinct (paths m) → AllDistinct (paths (put f m))
unfolding put contains_string
put-AllDistinct f [] d = (refl, tt)
put-AllDistinct f (g ∷ m) d = elim (Bool-cases (text_eq g.path f.path)) [
  | inl e ↦ rw e (rw (← (text_eq_iff g.path f.path).0 e) d.0, d.1)
  | inr e ↦ rw e (
    ground
        (arith, contains-put g.path f m, d.0, text_eq_iff f.path g.path, text_eq_iff g.path f.path),
    put-AllDistinct f m d.1,
  )
]

fill-AllDistinct :
    (m : FileMap) (fs : List ManifestFileRow)
    → AllDistinct (paths m)
    → AllDistinct (paths (fill m fs))
unfolding fill
fill-AllDistinct m [] d = d
fill-AllDistinct m (f ∷ fs) d = elim (Bool-cases (is_empty f.path)) [
  | inl e ↦ rw e (fill-AllDistinct m fs d)
  | inr e ↦ rw e (fill-AllDistinct (put f m) fs (put-AllDistinct f m d))
]

-- No path stands twice in the map of a manifest.
pub manifest_file_map-AllDistinct :
    (files : List ManifestFileRow) → AllDistinct (paths (manifest_file_map files))
unfolding manifest_file_map
manifest_file_map-AllDistinct files = fill-AllDistinct [] files tt
