-- ===== src/Base/Queries.antt =====
-- What SQL statements do to a table, which is a list of rows: a test of the rows, the first row that
-- passes it, UPDATE of those that pass, and the first rows of an answer.
use Prim.Native.Nat.{ℕ, zero, suc}
use mathlib.Core.Path.{◌≡◌, refl}
use mathlib.Core.Logic.{inl, inr}
use mathlib.Core.Option.{Option, none, some}
use mathlib.Core.List.{List, [], ◌∷◌}
use mathlib.Core.Bool.{Bool, true, false, ◌||◌}
use codeintel.Base.Tests.{if◌then◌else◌, Bool-cases}
use codeintel.Base.Lists.{length, keep, All}

module _ {ℓ} {A : Type ℓ} where
  -- `EXISTS (SELECT 1 FROM xs WHERE p)`
  unfoldable pub exists_in : (A → Bool) → List A → Bool
  exists_in p [] = false
  exists_in p (x ∷ xs) = p x || exists_in p xs

  -- The only row that passes, where a key makes it unique.
  unfoldable pub find_first : (A → Bool) → List A → Option A
  find_first p [] = none
  find_first p (x ∷ xs) = let later = find_first p xs in if p x then some x else later

  -- `UPDATE xs SET f WHERE p`
  unfoldable pub update : (A → Bool) → (A → A) → List A → List A
  update p f [] = []
  update p f (x ∷ xs) = (if p x then f x else x) ∷ update p f xs

  -- How many rows a statement affects.
  unfoldable pub affected : (A → Bool) → List A → ℕ
  affected p xs = length (keep p xs)

  -- `LIMIT n`
  unfoldable pub first : ℕ → List A → List A
  first zero xs = []
  first (suc n) [] = []
  first (suc n) (x ∷ xs) = x ∷ first n xs

  pub All-update {κ} :
      (P : A → Type κ) (p : A → Bool) (f : A → A) (xs : List A)
      → ((x : A) → P x → p x ≡ true → P (f x))
      → All P xs
      → All P (update p f xs)
  unfolding update
  All-update P p f [] step h = tt
  All-update P p f (x ∷ xs) step h = (
    elim (Bool-cases (p x)) [ inl e ↦ rw e (step x h.0 e) | inr e ↦ rw e h.0 ],
    All-update P p f xs step h.1,
  )

  -- A statement that no row meets does nothing.
  pub update_none :
      (p : A → Bool) (f : A → A) (xs : List A) → All (λ x. p x ≡ false) xs → update p f xs ≡ xs
  unfolding update
  update_none p f [] h = refl
  update_none p f (x ∷ xs) h = rw (h.0, update_none p f xs h.1)

  pub affected_none : (p : A → Bool) (xs : List A) → All (λ x. p x ≡ false) xs → affected p xs ≡ 0
  unfolding affected
  affected_none p [] h = refl
  affected_none p (x ∷ xs) h = rw h.0 (affected_none p xs h.1)

  -- Rows that are updated get a property that the others have already.
  pub All-updated {κ} :
      (P : A → Type κ) (p : A → Bool) (f : A → A) (xs : List A)
      → ((x : A) → P (f x))
      → All (λ x. p x ≡ false → P x) xs
      → All P (update p f xs)
  unfolding update
  All-updated P p f [] hit miss = tt
  All-updated P p f (x ∷ xs) hit miss = (
    elim (Bool-cases (p x)) [ inl e ↦ rw e (hit x) | inr e ↦ rw e (miss.0 e) ],
    All-updated P p f xs hit miss.1,
  )
