-- ===== src/Base/Sets.antt =====
-- Strings collected in a map: first-seen order, and sorted lists without repetition.
use mathlib.Core.Path.{◌≡◌, refl, ap, ◌∙◌}
use mathlib.Core.Logic.{inl, inr}
use mathlib.Core.List.{List, [], ◌∷◌, ◌++◌, map}
use mathlib.Core.Bool.{Bool, true, false, not, ◌&&◌, ◌||◌}
use native.Mathlib.Omega.{arith}
use codeintel.Base.Tests.{if◌then◌else◌, Bool-cases}
use codeintel.Base.Lists.{All, keep}
use codeintel.Base.Texts.{
  Text, text_eq, text_eq_iff, text_lt, text_lt_irrefl, text_lt_trans, text_lt_connex,
  contains_string,
}
use codeintel.Base.Sorting.{IsOrder, IsSortedBy, insert_by, sort_by, sort_by-IsSortedBy}

-- The strings in the order in which a loop sees them first; `seen` is the map of those before.
unfoldable pub dedup_from : List Text → List Text → List Text
dedup_from seen [] = []
dedup_from seen (b ∷ bs) =
    let old = dedup_from seen bs in
    let fresh = b ∷ dedup_from (b ∷ seen) bs in if contains_string seen b then old else fresh

-- `sort.Strings`
unfoldable pub sort_strings : List Text → List Text
unfolding sort_by
sort_strings xs = sort_by text_lt xs

-- No string stands twice.
abbrev pub AllDistinct : List Text → Type 0
AllDistinct [] = Unit
AllDistinct (x ∷ xs) = (contains_string xs x ≡ false) × AllDistinct xs

-- Each string is less than all behind it.
abbrev pub IsAscending : List Text → Type 0
IsAscending [] = Unit
IsAscending (x ∷ xs) = All (λ y. text_lt x y ≡ true) xs × IsAscending xs

pub contains-dedup_from :
    (seen xs : List Text) (b : Text)
    → contains_string (dedup_from seen xs) b
      ≡ (not (contains_string seen b) && contains_string xs b)
unfolding dedup_from contains_string
contains-dedup_from seen [] b = ground arith
contains-dedup_from seen (x ∷ xs) b =
    ground
      (arith, contains-dedup_from seen xs b, contains-dedup_from (x ∷ seen) xs b, text_eq_iff x b)

pub dedup_from-AllDistinct : (seen xs : List Text) → AllDistinct (dedup_from seen xs)
unfolding dedup_from contains_string
dedup_from-AllDistinct seen [] = tt
dedup_from-AllDistinct seen (x ∷ xs) = elim (Bool-cases (contains_string seen x)) [
  | inl h ↦ rw h (dedup_from-AllDistinct seen xs)
  | inr h ↦ rw h (
    ground (arith, contains-dedup_from (x ∷ seen) xs x, text_eq_iff x x),
    dedup_from-AllDistinct (x ∷ seen) xs,
  )
]

pub contains-keep :
    (p : Text → Bool) (xs : List Text) (b : Text)
    → contains_string (keep p xs) b ≡ (p b && contains_string xs b)
unfolding contains_string
contains-keep p [] b = ground arith
contains-keep p (x ∷ xs) b = elim (Bool-cases (text_eq x b)) [
  | inl h ↦
      let e = (text_eq_iff x b).0 h in rw e (ground (arith, contains-keep p xs b, text_eq_iff b b))
  | inr h ↦ ground (arith, contains-keep p xs b)
]

pub contains-append :
    (xs ys : List Text) (b : Text)
    → contains_string (xs ++ ys) b ≡ (contains_string xs b || contains_string ys b)
unfolding contains_string
contains-append [] ys b = refl
contains-append (x ∷ xs) ys b = ground (arith, contains-append xs ys b)

contains-insert_by :
    (x : Text) (ys : List Text) (b : Text)
    → contains_string (insert_by text_lt x ys) b ≡ (text_eq x b || contains_string ys b)
unfolding contains_string insert_by
contains-insert_by x [] b = refl
contains-insert_by x (y ∷ ys) b = ground (arith, contains-insert_by x ys b)

pub contains-sort_strings :
    (xs : List Text) (b : Text) → contains_string (sort_strings xs) b ≡ contains_string xs b
unfolding contains_string sort_strings
contains-sort_strings [] b = refl
contains-sort_strings (x ∷ xs) b =
    contains-insert_by x (sort_by text_lt xs) b
    ∙ ap (◌||◌ (text_eq x b)) (contains-sort_strings xs b)

text_lt_negtrans : (x y z : Text) → text_lt y x ≡ false → text_lt z y ≡ false → text_lt z x ≡ false
text_lt_negtrans x y z p q = elim (Bool-cases (text_lt z x)) [
  | inr h ↦ h
  | inl h ↦ elim (Bool-cases (text_lt x y)) [
    | inl k ↦ cc (text_lt_trans z x y h k)
    | inr k ↦ let e : x ≡ y = text_lt_connex x y k p in cc (e, q)
  ]
]

pub text-IsOrder : IsOrder text_lt
text-IsOrder = record { asym = λ x y p. text_lt_asym x y p; trans = text_lt_negtrans }
  where
    text_lt_asym : (x y : Text) → text_lt x y ≡ true → text_lt y x ≡ false
    text_lt_asym x y p = elim (Bool-cases (text_lt y x)) [
      | inr h ↦ h
      | inl h ↦ cc (text_lt_trans x y x p h, text_lt_irrefl x)
    ]

pub sort_strings-IsSortedBy : (xs : List Text) → IsSortedBy text_lt (sort_strings xs)
unfolding sort_strings
sort_strings-IsSortedBy xs = sort_by-IsSortedBy text_lt text-IsOrder xs

AllDistinct-insert_by :
    (x : Text) (ys : List Text)
    → contains_string ys x ≡ false
    → AllDistinct ys
    → AllDistinct (insert_by text_lt x ys)
unfolding contains_string insert_by
AllDistinct-insert_by x [] n d = (refl, tt)
AllDistinct-insert_by x (y ∷ ys) n d = elim (Bool-cases (text_lt y x)) [
  | inl h ↦ rw h (
    ground (arith, contains-insert_by x ys y, text_eq_iff x y, text_eq_iff y x),
    AllDistinct-insert_by x ys (ground arith) d.1,
  )
  | inr h ↦ rw h (n, d)
]

AllDistinct-sort_strings : (xs : List Text) → AllDistinct xs → AllDistinct (sort_strings xs)
unfolding sort_strings
AllDistinct-sort_strings [] d = tt
AllDistinct-sort_strings (x ∷ xs) d =
    AllDistinct-insert_by x (sort_by text_lt xs) (contains-sort_strings xs x ∙ d.0)
      (AllDistinct-sort_strings xs d.1)

All-text_lt :
    (x : Text) (ys : List Text)
    → All (λ y. text_lt y x ≡ false) ys
    → contains_string ys x ≡ false
    → All (λ y. text_lt x y ≡ true) ys
unfolding contains_string
All-text_lt x [] h n = tt
All-text_lt x (y ∷ ys) h n = (
  elim (Bool-cases (text_lt x y)) [
    | inl k ↦ k
    | inr k ↦ ground (arith, text_lt_connex x y k h.0, text_eq_iff y x)
  ],
  All-text_lt x ys h.1 (ground arith),
)

IsAscending-of_sorted : (xs : List Text) → IsSortedBy text_lt xs → AllDistinct xs → IsAscending xs
IsAscending-of_sorted [] s d = tt
IsAscending-of_sorted (x ∷ xs) s d = (All-text_lt x xs s.0 d.0, IsAscending-of_sorted xs s.1 d.1)

pub sort_strings-IsAscending : (xs : List Text) → AllDistinct xs → IsAscending (sort_strings xs)
sort_strings-IsAscending xs d =
    IsAscending-of_sorted (sort_strings xs) (sort_strings-IsSortedBy xs)
      (AllDistinct-sort_strings xs d)

-- A set collected in a map, then sorted: each string once, in ascending order.
unfoldable pub sorted_set : List Text → List Text
unfolding sort_strings dedup_from
sorted_set xs = sort_strings (dedup_from [] xs)

pub sorted_set-IsAscending : (xs : List Text) → IsAscending (sorted_set xs)
unfolding sorted_set
sorted_set-IsAscending xs =
    sort_strings-IsAscending (dedup_from [] xs) (dedup_from-AllDistinct [] xs)

pub contains-sorted_set :
    (xs : List Text) (b : Text) → contains_string (sorted_set xs) b ≡ contains_string xs b
unfolding contains_string sorted_set sort_strings
contains-sorted_set xs b = contains-sort_strings (dedup_from [] xs) b ∙ contains-dedup_from [] xs b

pub All-dedup_from :
    (P : Text → Type 0) (seen xs : List Text) → All P xs → All P (dedup_from seen xs)
unfolding dedup_from
All-dedup_from P seen [] h = tt
All-dedup_from P seen (x ∷ xs) h = elim (Bool-cases (contains_string seen x)) [
  | inl e ↦ rw e (All-dedup_from P seen xs h.1)
  | inr e ↦ rw e (h.0, All-dedup_from P (x ∷ seen) xs h.1)
]

pub contains-map :
    (f : Text → Text) (xs : List Text) (b : Text)
    → contains_string xs b ≡ true
    → contains_string (map f xs) (f b) ≡ true
unfolding contains_string
contains-map f [] b h = cc
contains-map f (x ∷ xs) b h = elim (Bool-cases (text_eq x b)) [
  | inl e ↦ ground (arith, text_eq_iff (f x) (f b), ap f ((text_eq_iff x b).0 e))
  | inr e ↦ ground (arith, contains-map f xs b)
]
