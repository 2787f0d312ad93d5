-- ===== src/Base/Lex.antt =====
-- Comparisons by several keys in turn: the first key that differs decides.
use mathlib.Core.Path.{◌≡◌, refl, sym, ◌∙◌}
use mathlib.Core.Logic.{◌↔◌}
use mathlib.Core.List.{List, [], ◌∷◌}
use mathlib.Core.Bool.{Bool, true, false}
use native.Mathlib.Omega.{arith}
use codeintel.Base.Tests.{if◌then◌else◌}
use codeintel.Base.Texts.{text_eq, text_eq_iff, text_lt, text_lt_connex}
use codeintel.Base.Sorting.{IsOrder}
use codeintel.Base.Sets.{text-IsOrder}

-- A linear order with its equality.
pub record IsLinear {ℓ} {A : Type ℓ} (eq lt : A → A → Bool) : Type ℓ where
  pub eq_iff : (x y : A) → (eq x y ≡ true) ↔ (x ≡ y)
  pub order : IsOrder lt
  pub connex : (x y : A) → lt x y ≡ false → lt y x ≡ false → x ≡ y

module _ {ℓ} {A : Type ℓ} where
  unfoldable pub lex_lt : (A → A → Bool) → (A → A → Bool) → List A → List A → Bool
  lex_lt eq lt [] [] = false
  lex_lt eq lt [] (_ ∷ _) = true
  lex_lt eq lt (_ ∷ _) [] = false
  lex_lt eq lt (x ∷ xs) (y ∷ ys) = if eq x y then lex_lt eq lt xs ys else lt x y

module _ {ℓ} {A : Type ℓ} (eq lt : A → A → Bool) (l : IsLinear eq lt) where
  lex_lt_asym : (xs ys : List A) → lex_lt eq lt xs ys ≡ true → lex_lt eq lt ys xs ≡ false
  unfolding lex_lt
  lex_lt_asym (x ∷ xs) (y ∷ ys) p =
      ground (arith, lex_lt_asym xs ys, l.eq_iff x y, l.eq_iff y x, l.order.asym x y)
  lex_lt_asym _ _ p = ground arith

  lex_lt_negtrans :
      (xs ys zs : List A)
      → lex_lt eq lt ys xs ≡ false
      → lex_lt eq lt zs ys ≡ false
      → lex_lt eq lt zs xs ≡ false
  unfolding lex_lt
  lex_lt_negtrans (x ∷ xs) (y ∷ ys) (z ∷ zs) p q = ground (
    arith,
    lex_lt_negtrans xs ys zs,
    l.eq_iff y x,
    l.eq_iff z y,
    l.eq_iff z x,
    l.connex x y,
    l.connex y x,
    l.connex y z,
    l.order.trans x y z,
  )
  lex_lt_negtrans [] ys [] p q = refl
  lex_lt_negtrans [] ys (z ∷ zs) p q = refl
  lex_lt_negtrans (x ∷ xs) [] zs p q = cc
  lex_lt_negtrans (x ∷ xs) (y ∷ ys) [] p q = cc

  pub lex-IsOrder : IsOrder (lex_lt eq lt)
  lex-IsOrder = record { asym = lex_lt_asym; trans = lex_lt_negtrans }

-- An order by a key.
pub IsOrder-by_key {ℓ κ} :
    {A : Type ℓ} {B : Type κ} (key : A → B) (lt : B → B → Bool) (less : A → A → Bool)
    → ((x y : A) → less x y ≡ lt (key x) (key y))
    → IsOrder lt
    → IsOrder less
IsOrder-by_key key lt less e o = record {
  asym = λ x y p. e y x ∙ o.asym (key x) (key y) (sym (e x y) ∙ p);
  trans = λ x y z p q. e z x ∙ o.trans (key x) (key y) (key z) (sym (e y x) ∙ p) (sym (e z y) ∙ q);
}

pub text-IsLinear : IsLinear text_eq text_lt
text-IsLinear = record { eq_iff = text_eq_iff; order = text-IsOrder; connex = text_lt_connex }
