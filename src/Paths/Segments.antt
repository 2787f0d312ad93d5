-- ===== src/Paths/Segments.antt =====
-- Paths and their segments: splitting and joining, and what `path.Clean` keeps.
use codeintel.Base.{
  ◌≡◌, refl, ap, ◌∙◌, ◌⊎◌, inl, inr, Bool, true, false, not, ◌&&◌, ◌||◌, List, [], ◌∷◌, ◌++◌, ℕ,
  ◌==◌, is_empty, if◌then◌else◌, arith, All, All-map, Bool-cases, Text, codes, text_eq, text_eq_iff,
}
use codeintel.Paths.{
  onto_first, split_slash, join_slash, clean_segment, kept_before, clean_segments,
}

abbrev pub no_slash : Text → Bool
no_slash [] = true
no_slash (c ∷ cs) = not (c == b'/') && no_slash cs

abbrev pub IsUp : Text → Type 0
IsUp s = text_eq s (codes "..") ≡ true

-- A segment that `path.Clean` can keep.
unfoldable pub IsSegment : Text → Type 0
IsSegment s = (is_empty s ≡ false) × (text_eq s (codes ".") ≡ false) × (no_slash s ≡ true)

-- A segment that stays inside the directory.
unfoldable pub IsName : Text → Type 0
IsName s = IsSegment s × (text_eq s (codes "..") ≡ false)

pub join-split_slash : (p : Text) → join_slash (split_slash p) ≡ p
unfolding split_slash join_slash
join-split_slash [] = refl
join-split_slash (c ∷ cs) = elim (Bool-cases (c == b'/')) [
  | inl h ↦ rw h (front (split_slash cs) (nonempty cs) ∙ ground (arith, h, join-split_slash cs))
  | inr h ↦ rw h (onto c (split_slash cs) ∙ ap (λ z. c ∷ z) (join-split_slash cs))
]
  where
    filled : (x : ℕ) (ss : List Text) → is_empty (onto_first x ss) ≡ false
    filled x [] = refl
    filled x (s ∷ ss) = refl

    nonempty : (s : Text) → is_empty (split_slash s) ≡ false
    nonempty [] = refl
    nonempty (x ∷ xs) = elim (Bool-cases (x == b'/')) [
      | inl h ↦ rw h
      | inr h ↦ rw h (filled x (split_slash xs))
    ]

    front : (ss : List Text) → is_empty ss ≡ false → join_slash ([] ∷ ss) ≡ b'/' ∷ join_slash ss
    front [] h = cc
    front (s ∷ ss) h = refl

    onto : (x : ℕ) (ss : List Text) → join_slash (onto_first x ss) ≡ x ∷ join_slash ss
    onto x [] = refl
    onto x (s ∷ []) = refl
    onto x (s ∷ t ∷ ss) = refl

split_slash_one : (s : Text) → no_slash s ≡ true → split_slash s ≡ s ∷ []
unfolding split_slash
split_slash_one [] h = refl
split_slash_one (c ∷ cs) h = ground (arith, split_slash_one cs)

split_slash-append :
    (s p : Text) → no_slash s ≡ true → split_slash (s ++ b'/' ∷ p) ≡ s ∷ split_slash p
unfolding split_slash
split_slash-append [] p h = refl
split_slash-append (c ∷ cs) p h = ground (arith, split_slash-append cs p)

pub split-join_slash :
    (s : Text) (ss : List Text)
    → All (λ t. no_slash t ≡ true) (s ∷ ss)
    → split_slash (join_slash (s ∷ ss)) ≡ s ∷ ss
unfolding join_slash
split-join_slash s [] h = split_slash_one s h.0
split-join_slash s (t ∷ ss) h =
    split_slash-append s (join_slash (t ∷ ss)) h.0 ∙ ap (λ z. s ∷ z) (split-join_slash t ss h.1)

-- What the kept segments look like, the last one first: below an upward step are only such steps.
unfoldable pub IsKept : List Text → Type 0
IsKept [] = Unit
IsKept (s ∷ below) = IsSegment s × (IsUp s → All IsUp below) × IsKept below

pub clean_segment-IsKept :
    (kept : List Text) (s : Text)
    → IsKept kept
    → no_slash s ≡ true
    → IsKept (clean_segment false kept s)
unfolding clean_segment IsKept IsSegment
clean_segment-IsKept kept s k h = elim (Bool-cases (is_empty s || text_eq s (codes "."))) [
  | inl e ↦ rw e k
  | inr e ↦ elim (Bool-cases (text_eq s (codes ".."))) [
    | inl u ↦ rw (e, u) (up kept k e u)
    | inr u ↦ rw (e, u) ((ground arith, ground arith, h), λ v. cc, k)
  ]
]
  where
    up :
        (ss : List Text)
        → IsKept ss
        → (is_empty s || text_eq s (codes ".")) ≡ false
        → IsUp s
        → IsKept (elim ss [
          | [] ↦ s ∷ []
          | top ∷ below ↦ if text_eq top (codes "..") then s ∷ top ∷ below else below
        ])
    up [] c e u = ((ground arith, ground arith, h), λ v. tt, tt)
    up (top ∷ below) c e u = elim (Bool-cases (text_eq top (codes ".."))) [
      | inl t ↦ rw t ((ground arith, ground arith, h), λ v. (t, c.1 t), c)
      | inr t ↦ rw t c.2
    ]

-- What `path.Clean` makes of a relative path: names only, or an upward step in front.
unfoldable pub Cleaned : List Text → Type 0
Cleaned ss = All IsName ss ⊎ ((rest : List Text) × (ss ≡ codes ".." ∷ rest) × All IsSegment rest)

kept_before-Up :
    (below : List Text) (s : Text) (after : List Text)
    → IsKept below
    → IsUp s
    → All IsUp below
    → All IsSegment after
    → IsSegment s
    → Cleaned (kept_before below (s ∷ after))
unfolding Cleaned IsKept
kept_before-Up [] s after k v u a b =
    inr (after, ap (λ z. z ∷ after) ((text_eq_iff s (codes "..")).0 v), a)
kept_before-Up (t ∷ below) s after k v u a b =
    kept_before-Up below t (s ∷ after) k.2 u.0 u.1 (b, a) k.0

kept_before-Cleaned :
    (kept after : List Text) → IsKept kept → All IsName after → Cleaned (kept_before kept after)
unfolding Cleaned IsKept IsName
kept_before-Cleaned [] after k a = inl a
kept_before-Cleaned (s ∷ below) after k a = elim (Bool-cases (text_eq s (codes ".."))) [
  | inr n ↦ kept_before-Cleaned below (s ∷ after) k.2 ((k.0, n), a)
  | inl u ↦
      kept_before-Up below s after k.2 u (k.1 u) (All-map IsName IsSegment after (λ _ n. n.0) a) k.0
]

split_slash-no_slash : (p : Text) → All (λ s. no_slash s ≡ true) (split_slash p)
unfolding split_slash
split_slash-no_slash [] = (refl, tt)
split_slash-no_slash (c ∷ cs) = elim (Bool-cases (c == b'/')) [
  | inl h ↦ rw h (refl, split_slash-no_slash cs)
  | inr h ↦ rw h (onto (split_slash cs) h (split_slash-no_slash cs))
]
  where
    onto :
        (ss : List Text)
        → (c == b'/') ≡ false
        → All (λ s. no_slash s ≡ true) ss
        → All (λ s. no_slash s ≡ true) (onto_first c ss)
    onto [] h a = (ground arith, tt)
    onto (s ∷ ss) h a = (ground (arith, a.0), a.1)

clean_segments-Cleaned :
    (kept ss : List Text)
    → IsKept kept
    → All (λ s. no_slash s ≡ true) ss
    → Cleaned (clean_segments false kept ss)
unfolding clean_segments
clean_segments-Cleaned kept [] k a = kept_before-Cleaned kept [] k tt
clean_segments-Cleaned kept (s ∷ ss) k a =
    clean_segments-Cleaned (clean_segment false kept s) ss (clean_segment-IsKept kept s k a.0) a.1

pub relative-Cleaned : (p : Text) → Cleaned (clean_segments false [] (split_slash p))
unfolding IsKept
relative-Cleaned p = clean_segments-Cleaned [] (split_slash p) tt (split_slash-no_slash p)

-- Names are kept as they are.
pub clean_segments_names :
    (kept ss : List Text) → All IsName ss → clean_segments false kept ss ≡ kept_before kept ss
unfolding clean_segments clean_segment IsName IsSegment
clean_segments_names kept [] a = refl
clean_segments_names kept (s ∷ ss) a = ground (arith, a.0, clean_segments_names (s ∷ kept) ss a.1)
