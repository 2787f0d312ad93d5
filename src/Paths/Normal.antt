-- ===== src/Paths/Normal.antt =====
-- Exactly the paths of plain names are normal, and normalizing is idempotent.
use mathlib.Core.Path.{subst}
use codeintel.Base.{
  ◌≡◌, refl, sym, ap, ◌∙◌, ◌↔◌, inl, inr, true, false, some, List, [], ◌∷◌, ◌++◌, ℕ, ◌==◌, is_empty,
  is_some, arith, All, All-map, Bool-cases, Text, codes, text_eq, text_eq_iff, text_eq_self,
  has_prefix, drop_as, append-drop_as, contains, trim_left_from, trim_left, trim_right, trim_space,
  trim_space-trim_space,
}
use codeintel.Paths.{
  onto_first, split_slash, join_slash, clean_segments, clean, normalize_project_root,
  safe_project_root,
}
use codeintel.Paths.Segments.{IsSegment, IsName, join-split_slash, Cleaned, clean_segments_names}
use codeintel.Paths.Roots.{
  IsPlain, Passed-IsPlain, normalized-Passed, Cleaned-IsPlain, safe_project_root_lem,
}

-- A plain path is no special one and climbs nowhere.
plain_starts :
    (t : Text)
    → IsPlain t
    → (is_empty t ≡ false)
      × (text_eq t (codes ".") ≡ false)
      × (text_eq t (codes "..") ≡ false)
      × (has_prefix t (codes "/") ≡ false)
      × (has_prefix t (codes "../") ≡ false)
unfolding IsPlain IsName IsSegment split_slash text_eq has_prefix
plain_starts [] p = cc p.0.0.0
plain_starts (c ∷ cs) p = (
  refl,
  not_text (codes ".") (λ e. cc (subst IsPlain e p).0.0.1),
  not_text (codes "..") (λ e. cc (subst IsPlain e p).0.1),
  not_start (codes "/") (λ e. cc (subst IsPlain e p).0.0.0),
  not_start (codes "../") (λ e. cc (subst IsPlain e p).0.1),
)
  where
    not_text : (u : Text) → (c ∷ cs ≡ u → false ≡ true) → text_eq (c ∷ cs) u ≡ false
    not_text u never = elim (Bool-cases (text_eq (c ∷ cs) u)) [
      | inr f ↦ f
      | inl w ↦ cc (never ((text_eq_iff (c ∷ cs) u).0 w))
    ]

    not_start :
        (u : Text)
        → (c ∷ cs ≡ u ++ drop_as (c ∷ cs) u → false ≡ true)
        → has_prefix (c ∷ cs) u ≡ false
    not_start u never = elim (Bool-cases (has_prefix (c ∷ cs) u)) [
      | inr f ↦ f
      | inl w ↦ cc (never (sym (append-drop_as (c ∷ cs) u w)))
    ]

abbrev IsLevel : List Text → Type 0
IsLevel ss = All (λ s. text_eq s (codes "..") ≡ false) ss

abbrev later : List Text → List Text
later [] = []
later (s ∷ ss) = ss

later-IsLevel : (ss : List Text) → IsLevel ss → IsLevel (later ss)
later-IsLevel [] a = tt
later-IsLevel (s ∷ ss) a = a.1

later-onto_first : (c : ℕ) (ss : List Text) → later (onto_first c ss) ≡ later ss
later-onto_first c [] = refl
later-onto_first c (s ∷ ss) = refl

level_start : (t : Text) → IsLevel (split_slash t) → has_prefix t (codes "../") ≡ false
unfolding split_slash text_eq
level_start t a = elim (Bool-cases (has_prefix t (codes "../"))) [
  | inr f ↦ f
  | inl w ↦ cc (subst (λ z. IsLevel (split_slash z)) (sym (append-drop_as t (codes "../") w)) a).0
]

-- Without an upward step behind the first segment there is no "/../".
no_climb : (t : Text) → IsLevel (later (split_slash t)) → contains t (codes "/../") ≡ false
unfolding contains split_slash has_prefix
no_climb [] a = refl
no_climb (c ∷ cs) a = elim (Bool-cases (c == b'/')) [
  | inl h ↦
      let level : IsLevel (split_slash cs) = rw h at a in
      ground (arith, h, no_climb cs (later-IsLevel (split_slash cs) level), level_start cs level)
  | inr h ↦
      ground
        (arith, h, no_climb cs (subst IsLevel (later-onto_first c (split_slash cs)) (rw h at a)))
]

backslash_inside : (t : Text) → contains t (codes "\\") ≡ false → has_prefix t (codes "\\") ≡ false
unfolding contains
backslash_inside [] h = h
backslash_inside (c ∷ cs) h = ground arith

plain-IsLevel : (ss : List Text) → All IsName ss → IsLevel ss
unfolding IsName
plain-IsLevel ss p = All-map IsName (λ z. text_eq z (codes "..") ≡ false) ss (λ z n. n.1) p

-- `path.Clean` keeps a plain path.
clean_plain : (t : Text) → IsPlain t → clean t ≡ t
unfolding clean IsPlain
clean_plain t p =
    let s = plain_starts t p in
    let same : join_slash (clean_segments false [] (split_slash t)) ≡ t =
      ap join_slash (clean_segments_names [] (split_slash t) p) ∙ join-split_slash t in
    rw (s.3, same, s.0)

-- A trimmed plain path without a backslash is its own normal form.
plain_root :
    (t : Text)
    → IsPlain t
    → contains t (codes "\\") ≡ false
    → trim_space t ≡ t
    → normalize_project_root t ≡ some t
unfolding normalize_project_root IsPlain Cleaned
plain_root t p b trimmed =
    let s = plain_starts t p in
    let trims = Cleaned-IsPlain (split_slash t) t (inl p) (sym (join-split_slash t)) s.0 s.2 s.4 in
    let climb = no_climb t (later-IsLevel (split_slash t) (plain-IsLevel (split_slash t) p)) in
    rw
      (
        trimmed,
        s.1,
        s.0,
        s.3,
        backslash_inside t b,
        b,
        clean_plain t p,
        text_eq_self t,
        s.0,
        s.1,
        s.2,
        s.4,
        climb,
      )
      (ap some trims.0)

trimmed : (root : Text) → normalize_project_root root ≡ normalize_project_root (trim_space root)
unfolding normalize_project_root
trimmed root = rw (trim_space-trim_space root)

-- A text that is not empty is the normal form of a root exactly if it is the root without its outer
-- white space, a path of plain names (no empty segment, no dot segment), and without a backslash.
pub normalized_root :
    (root r : Text)
    → is_empty r ≡ false
    → (normalize_project_root root ≡ some r)
      ↔ ((trim_space root ≡ r) × IsPlain r × (contains r (codes "\\") ≡ false))
normalized_root root r filled = (
  λ h. elim (normalized-Passed root r h) [
    | inl e ↦ cc (e, filled)
    | inr q ↦
        let (same, plain, back) = Passed-IsPlain (trim_space root) r q in (sym same, plain, back)
  ],
  λ h.
      trimmed root
      ∙ ap normalize_project_root h.0
      ∙ plain_root r h.1 h.2 (ap trim_space (sym h.0) ∙ trim_space-trim_space root ∙ h.0),
)

empty_root : (r : Text) → is_empty r ≡ true → normalize_project_root r ≡ some r
unfolding normalize_project_root text_eq trim_space trim_left trim_left_from trim_right
empty_root [] e = refl
empty_root (c ∷ cs) e = cc

-- Normalizing a normal root changes nothing, and the store accepts it.
pub normalize_project_root_idem :
    (root r : Text)
    → normalize_project_root root ≡ some r
    → (normalize_project_root r ≡ some r) × (safe_project_root r ≡ true)
normalize_project_root_idem root r h = (again, safe_project_root_lem r ∙ ap is_some again)
  where
    again : normalize_project_root r ≡ some r
    again = elim (Bool-cases (is_empty r)) [
      | inl e ↦ empty_root r e
      | inr e ↦
          let (t, plain, back) = (normalized_root root r e).0 h in
          plain_root r plain back (ap trim_space (sym t) ∙ trim_space-trim_space root ∙ t)
    ]
