-- ===== src/Base/Results.antt =====
-- A value or an error, with the monad that Go's `if err != nil { return err }` spells out.
use mathlib.Core.Path.{◌≡◌, refl, ap}
use mathlib.Core.Logic.{◌⊎◌, inl, inr}
use mathlib.Core.Bool.{Bool, true, false}

pub data Result {ε ℓ} (E : Type ε) (A : Type ℓ) : Type (ε ⊔ ℓ) where
  err : E → Result E A
  ok : A → Result E A

-- Go on with the value, or leave with the error.
infixl 5 ◌>>=◌ ◌>>◌
abbrev pub ◌>>=◌ {ε α β} :
    {E : Type ε} {A : Type α} {B : Type β} → Result E A → (A → Result E B) → Result E B
r >>= next = elim r [ ok x ↦ next x | err failure ↦ err failure ]

abbrev pub ◌>>◌ {ε β} : {E : Type ε} {B : Type β} → Result E (Unit {0}) → Result E B → Result E B
r >> later = elim r [ ok _ ↦ later | err failure ↦ err failure ]

-- `if bad { return err }`
abbrev pub reject {ε} : {E : Type ε} → Bool → E → Result E (Unit {0})
reject false e = ok tt
reject true e = err e

pub ok-injective {ε ℓ} :
    {E : Type ε} {A : Type ℓ} {a b : A} → ◌≡◌ {A = Result E A} (ok a) (ok b) → a ≡ b
ok-injective {a} {b} h = ap (λ r. elim r [ ok x ↦ x | err _ ↦ a ]) h

pub Result-cases {ε ℓ} :
    {E : Type ε} {A : Type ℓ} (r : Result E A) → ((a : A) × (r ≡ ok a)) ⊎ ((e : E) × (r ≡ err e))
Result-cases (err e) = inr (e, refl)
Result-cases (ok a) = inl (a, refl)

-- A chain that ends well had its first step end well.
pub chain_steps {ε α β} :
    {E : Type ε} {A : Type α} {B : Type β} {y : B} (first : Result E A) (next : A → Result E B)
    → (first >>= next) ≡ ok y
    → (x : A) × (first ≡ ok x) × (next x ≡ ok y)
chain_steps (err failure) next q = cc
chain_steps (ok x) next q = (x, refl, q)

pub reject-passed {ε} :
    {E : Type ε} (b : Bool) (e : E) {u : Unit {0}} → reject b e ≡ ok u → b ≡ false
reject-passed false e h = refl
reject-passed true e h = cc

pub err-injective {ε ℓ} :
    {E : Type ε} {A : Type ℓ} {a b : E} → ◌≡◌ {A = Result E A} (err a) (err b) → a ≡ b
err-injective {a} {b} h = ap (λ r. elim r [ ok _ ↦ a | err x ↦ x ]) h
