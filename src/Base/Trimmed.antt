-- ===== src/Base/Trimmed.antt =====
-- A trimmed text has no white space at its ends: `trim_space` changes it no more.
use codeintel.Base.Tests.{Bool-cases}
use codeintel.Base.Lists.{length, is_empty}
use codeintel.Base.Texts.{Text}
use codeintel.Base.Spaces.{space_width, trim_left_from, trim_left, is_blank, trim_right, trim_space}
use Prim.Native.Nat.{ℕ, zero, suc, ◌-◌, ◌≤◌}
use mathlib.Core.Path.{◌≡◌, refl, sym, ap, ◌∙◌, subst}
use mathlib.Core.Logic.{◌≢◌, inl, inr}
use mathlib.Core.Bool.{true}
use mathlib.Core.List.{[], ◌∷◌, ◌++◌}
use native.Mathlib.Omega.{arith}

space_width-append : (s t : Text) → space_width s ≢ 0 → space_width (s ++ t) ≡ space_width s
unfolding space_width
space_width-append [] t h = ground arith
space_width-append (a ∷ []) [] h = ground arith
space_width-append (a ∷ []) (x ∷ []) h = ground arith
space_width-append (a ∷ []) (x ∷ y ∷ t) h = ground arith
space_width-append (a ∷ b ∷ []) [] h = ground arith
space_width-append (a ∷ b ∷ []) (x ∷ t) h = ground arith
space_width-append (a ∷ b ∷ c ∷ s) t h = ground arith

space_width-le : (s : Text) → space_width s ≤ length s
unfolding space_width
space_width-le [] = ground arith
space_width-le (a ∷ []) = ground arith
space_width-le (a ∷ b ∷ []) = ground arith
space_width-le (a ∷ b ∷ c ∷ s) = ground arith

blank-append :
    (n : ℕ) (s t : Text)
    → n ≤ length s
    → is_empty (trim_left_from n s) ≡ true
    → is_empty (trim_left_from 0 t) ≡ true
    → is_empty (trim_left_from n (s ++ t)) ≡ true
unfolding trim_left_from
blank-append n [] t le hs ht = ground arith
blank-append zero (x ∷ xs) t le hs ht = ground (
  arith,
  space_width-append (x ∷ xs) t,
  space_width-le (x ∷ xs),
  blank-append (space_width (x ∷ xs) - 1) xs t,
)
blank-append (suc n) (x ∷ xs) t le hs ht = blank-append n xs t (omega arith) hs ht

trim_right-rest : (s : Text) → (r : Text) × (s ≡ trim_right s ++ r) × (is_blank r ≡ true)
unfolding trim_right is_blank trim_left trim_left_from
trim_right-rest [] = ([], refl, refl)
trim_right-rest (x ∷ xs) = elim (Bool-cases (is_blank (x ∷ xs))) [
  | inl h ↦ (x ∷ xs, rw h, h)
  | inr h ↦ let (r, e, b) = trim_right-rest xs in (r, rw h (ap (λ z. x ∷ z) e), b)
]

trim_right-blank :
    (x : ℕ) (xs : Text) → is_blank (x ∷ trim_right xs) ≡ true → is_blank (x ∷ xs) ≡ true
unfolding is_blank trim_left
trim_right-blank x xs k =
    let (r, e, b) = trim_right-rest xs in
    subst (λ z. is_empty (trim_left_from 0 (x ∷ z)) ≡ true) (sym e)
      (blank-append 0 (x ∷ trim_right xs) r (omega arith) k b)

trim_right-trim_right : (s : Text) → trim_right (trim_right s) ≡ trim_right s
unfolding trim_right
trim_right-trim_right [] = refl
trim_right-trim_right (x ∷ xs) = elim (Bool-cases (is_blank (x ∷ xs))) [
  | inl h ↦ rw h
  | inr h ↦ elim (Bool-cases (is_blank (x ∷ trim_right xs))) [
    | inr k ↦ rw (h, k) (ap (λ z. x ∷ z) (trim_right-trim_right xs))
    | inl k ↦ cc (trim_right-blank x xs k)
  ]
]

space_width_empty : space_width [] ≡ 0
unfolding space_width
space_width_empty = refl

space_width-trim_left_from : (n : ℕ) (s : Text) → space_width (trim_left_from n s) ≡ 0
unfolding trim_left_from
space_width-trim_left_from n [] = space_width_empty
space_width-trim_left_from zero (x ∷ xs) =
    ground (arith, space_width-trim_left_from (space_width (x ∷ xs) - 1) xs)
space_width-trim_left_from (suc n) (x ∷ xs) = space_width-trim_left_from n xs

trim_left_start : (s : Text) → space_width s ≡ 0 → trim_left s ≡ s
unfolding trim_left trim_left_from
trim_left_start [] h = refl
trim_left_start (x ∷ xs) h = rw h

space_width-trim_right : (s : Text) → space_width s ≡ 0 → space_width (trim_right s) ≡ 0
space_width-trim_right s h =
    let (r, e, b) = trim_right-rest s in
    ground (arith, space_width-append (trim_right s) r, h, ap space_width e)

pub trim_space-trim_space : (s : Text) → trim_space (trim_space s) ≡ trim_space s
unfolding trim_space trim_left
trim_space-trim_space s =
    ap trim_right (
      trim_left_start (trim_right (trim_left_from 0 s))
        (space_width-trim_right (trim_left_from 0 s) (space_width-trim_left_from 0 s)))
    ∙ trim_right-trim_right (trim_left_from 0 s)
