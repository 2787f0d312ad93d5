-- ===== src/Paths/Roots.antt =====
-- The normalized project roots are the paths of plain names, and the store accepts them.
use mathlib.Core.Path.{subst}
use codeintel.Base.{
  ◌≡◌, refl, sym, ap, ◌∙◌, ◌⊎◌, inl, inr, true, false, ◌||◌, some, List, [], ◌∷◌, ◌++◌, is_empty,
  is_some, arith, All, All-map, Bool-cases, Text, codes, text_eq, text_eq_iff, has_prefix, contains,
  trim_space,
}
use codeintel.Paths.{
  split_slash, join_slash, clean_segments, clean, trim_left_slash, trim_right_slash,
  normalize_project_root, safe_project_root,
}
use codeintel.Paths.Segments.{
  no_slash, IsSegment, IsName, split-join_slash, Cleaned, relative-Cleaned,
}

-- The store's test is that the planner can normalize the root.
pub safe_project_root_lem :
    (root : Text) → safe_project_root root ≡ is_some (normalize_project_root root)
unfolding safe_project_root normalize_project_root
safe_project_root_lem root = ground arith

trim_left_slash-append :
    (s p : Text) → is_empty s ≡ false → no_slash s ≡ true → trim_left_slash (s ++ p) ≡ s ++ p
unfolding trim_left_slash
trim_left_slash-append (c ∷ cs) p e h = ground arith
trim_left_slash-append [] p e h = cc

trim_right_slash_one : (s : Text) → no_slash s ≡ true → trim_right_slash s ≡ s
unfolding trim_right_slash
trim_right_slash_one [] h = refl
trim_right_slash_one (c ∷ cs) h = ground (arith, trim_right_slash_one cs)

trim_right_slash-append :
    (s p : Text) → is_empty p ≡ false → trim_right_slash p ≡ p → trim_right_slash (s ++ p) ≡ s ++ p
unfolding trim_right_slash
trim_right_slash-append [] p e h = h
trim_right_slash-append (c ∷ cs) p e h =
    rw (trim_right_slash-append cs p e h) (ground (arith, filled cs p e))
  where
    filled : (s p : Text) → is_empty p ≡ false → is_empty (s ++ p) ≡ false
    filled [] p e = e
    filled (x ∷ xs) p e = refl

join_slash_filled :
    (s : Text) (ss : List Text) → All IsName (s ∷ ss) → is_empty (join_slash (s ∷ ss)) ≡ false
unfolding join_slash IsName IsSegment
join_slash_filled s [] a = a.0.0.0
join_slash_filled [] (t ∷ ss) a = cc
join_slash_filled (c ∷ cs) (t ∷ ss) a = refl

trim_right_slash-join :
    (s : Text) (ss : List Text)
    → All IsName (s ∷ ss)
    → trim_right_slash (join_slash (s ∷ ss)) ≡ join_slash (s ∷ ss)
unfolding join_slash IsName IsSegment
trim_right_slash-join s [] a = trim_right_slash_one s a.0.0.2
trim_right_slash-join s (t ∷ ss) a = trim_right_slash-append s (b'/' ∷ join_slash (t ∷ ss)) refl (
    trim_right_slash-append (b'/' ∷ []) (join_slash (t ∷ ss)) (join_slash_filled t ss a.1)
      (trim_right_slash-join t ss a.1))

trim_left_slash-join :
    (s : Text) (ss : List Text)
    → All IsName (s ∷ ss)
    → trim_left_slash (join_slash (s ∷ ss)) ≡ join_slash (s ∷ ss)
unfolding join_slash trim_left_slash IsName IsSegment
trim_left_slash-join (c ∷ cs) [] a = ground (arith, a.0.0.2)
trim_left_slash-join [] ss a = cc a.0.0.0
trim_left_slash-join (c ∷ cs) (t ∷ ss) a =
    trim_left_slash-append (c ∷ cs) (b'/' ∷ join_slash (t ∷ ss)) refl a.0.0.2

-- A path whose segments are all names.
unfoldable pub IsPlain : Text → Type 0
IsPlain p = All IsName (split_slash p)

-- What a normalized root that is not empty went through.
pub Passed : Text → Text → Type 0
Passed t r =
    (has_prefix t (codes "/") ≡ false)
    × (contains t (codes "\\") ≡ false)
    × (text_eq (clean t) t ≡ true)
    × (text_eq (clean t) (codes ".") ≡ false)
    × (is_empty (clean t) ≡ false)
    × (text_eq (clean t) (codes "..") ≡ false)
    × (has_prefix (clean t) (codes "../") ≡ false)
    × (r ≡ trim_right_slash (trim_left_slash (clean t)))

pub normalized-Passed :
    (root r : Text) → normalize_project_root root ≡ some r → (r ≡ []) ⊎ Passed (trim_space root) r
unfolding normalize_project_root Passed
normalized-Passed root r h =
    elim (Bool-cases (
      text_eq t (codes ".") || is_empty t || text_eq (clean t) (codes ".") || is_empty (clean t))) [
        | inl e ↦ inl (ground (arith, h, e))
        | inr e ↦ inr (
          ground (arith, h, e),
          ground (arith, h, e),
          ground (arith, h, e),
          ground (arith, h, e),
          ground (arith, h, e),
          ground (arith, h, e),
          ground (arith, h, e),
          ground (arith, h, e),
        )
      ]
  where
    t : Text
    t = trim_space root

pub clean_filled :
    (t : Text)
    → has_prefix t (codes "/") ≡ false
    → text_eq (clean t) (codes ".") ≡ false
    → clean t ≡ join_slash (clean_segments false [] (split_slash t))
unfolding clean text_eq
clean_filled t h d =
    elim (Bool-cases (is_empty (join_slash (clean_segments false [] (split_slash t))))) [
      | inl e ↦ cc (rw (h, e) at d)
      | inr e ↦ rw (h, e)
    ]

starts_upward :
    (rest : List Text)
    → (text_eq (join_slash (codes ".." ∷ rest)) (codes "..") ≡ true)
      ⊎ (has_prefix (join_slash (codes ".." ∷ rest)) (codes "../") ≡ true)
unfolding join_slash text_eq has_prefix
starts_upward [] = inl refl
starts_upward (s ∷ ss) = inr refl

pub Cleaned-IsPlain :
    (ks : List Text) (c : Text)
    → Cleaned ks
    → c ≡ join_slash ks
    → is_empty c ≡ false
    → text_eq c (codes "..") ≡ false
    → has_prefix c (codes "../") ≡ false
    → (trim_right_slash (trim_left_slash c) ≡ c) × IsPlain c
unfolding Cleaned IsPlain IsName IsSegment join_slash
Cleaned-IsPlain ks c (inr (rest, k, a)) j e u v = elim (starts_upward rest) [
  | inl w ↦ cc (u, w, j, k)
  | inr w ↦ cc (v, w, j, k)
]
Cleaned-IsPlain [] c (inl a) j e u v = cc (j, e)
Cleaned-IsPlain (s ∷ ss) c (inl a) j e u v = (
  rw j (ap trim_right_slash (trim_left_slash-join s ss a) ∙ trim_right_slash-join s ss a),
  rw
      (
        j,
        split-join_slash s ss
            (All-map IsName (λ z. no_slash z ≡ true) (s ∷ ss) (λ z n. no_slash_of z n) a),
      )
      a,
)
  where
    no_slash_of : (z : Text) → IsName z → no_slash z ≡ true
    no_slash_of z n = n.0.2

pub Passed-IsPlain :
    (t r : Text) → Passed t r → (r ≡ t) × IsPlain r × (contains r (codes "\\") ≡ false)
unfolding Passed
Passed-IsPlain t r (h, b, same, d, e, u, v, q) =
    let c_t = (text_eq_iff (clean t) t).0 same in
    let (trims, plain) =
      Cleaned-IsPlain (clean_segments false [] (split_slash t)) (clean t) (relative-Cleaned t)
        (clean_filled t h d) e u v in
    let r_t = q ∙ trims ∙ c_t in (r_t, subst IsPlain (sym (q ∙ trims)) plain, rw r_t b)
