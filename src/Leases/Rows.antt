-- ===== src/Leases/Rows.antt =====
-- The row of a subjob, and what a statement for one id does to it.
use mathlib.Core.Path.{subst}
use mathlib.Core.Option.{some-injective}
use codeintel.Base.{
  ◌≡◌, sym, ap, ◌∙◌, inl, inr, Bool, true, false, Option, none, some, List, [], ◌∷◌, All, All-map,
  suc, Text, text_eq, text_eq_iff, Bool-cases, find_first, update, affected, affected_none,
}
use codeintel.Leases.{Row}
use codeintel.Leases.Steps.{Reach, Moves}
use codeintel.Leases.Keys.{IsKeyed, Reach-input}

-- SELECT ... WHERE id = $1
unfoldable pub row_of : Text → List Row → Option Row
unfolding find_first
row_of id rows = find_first (λ (r : Row). text_eq r.input.id id) rows

pub row_of-first :
    (id : Text) (x : Row) (xs : List Row)
    → text_eq x.input.id id ≡ true
    → row_of id (x ∷ xs) ≡ some x
unfolding row_of
row_of-first id x xs e = rw e

pub row_of-later :
    (id : Text) (x : Row) (xs : List Row)
    → text_eq x.input.id id ≡ false
    → row_of id (x ∷ xs) ≡ row_of id xs
unfolding row_of
row_of-later id x xs e = rw e

-- A row is found again after any steps.
pub row_of-Moves :
    (id : Text) (xs ys : List Row) (r : Row)
    → Moves xs ys
    → row_of id xs ≡ some r
    → (u : Row) × (row_of id ys ≡ some u) × Reach r u
unfolding Moves row_of
row_of-Moves id [] [] r m h = cc h
row_of-Moves id [] (y ∷ ys) r m h = elim m [ ]
row_of-Moves id (x ∷ xs) [] r m h = elim m [ ]
row_of-Moves id (x ∷ xs) (y ∷ ys) r m h = elim (Bool-cases (text_eq x.input.id id)) [
  | inl e ↦ (
    y,
    row_of-first id y ys (rw (Reach-input m.0) e),
    subst (λ z. Reach z y) (some-injective x r (sym (row_of-first id x xs e) ∙ h)) m.0,
  )
  | inr e ↦
      let (u, found, c) = row_of-Moves id xs ys r m.1 (sym (row_of-later id x xs e) ∙ h) in
      (u, row_of-later id y ys (rw (Reach-input m.0) e) ∙ found, c)
]

pub row_of-id :
    (id : Text) (xs : List Row) (r : Row) → row_of id xs ≡ some r → text_eq r.input.id id ≡ true
unfolding row_of
row_of-id id [] r h = cc h
row_of-id id (x ∷ xs) r h = elim (Bool-cases (text_eq x.input.id id)) [
  | inl e ↦
      subst (λ (z : Row). text_eq z.input.id id ≡ true)
        (some-injective x r (sym (row_of-first id x xs e) ∙ h)) e
  | inr e ↦ row_of-id id xs r (sym (row_of-later id x xs e) ∙ h)
]

-- A statement for one id.
abbrev pub For : Text → (Row → Bool) → Type 0
For id p = (y : Row) → p y ≡ true → text_eq y.input.id id ≡ true

other_row :
    (id : Text) (p : Row → Bool) (y : Row) → For id p → text_eq y.input.id id ≡ false → p y ≡ false
other_row id p y one e = elim (Bool-cases (p y)) [ inl q ↦ cc (one y q, e) | inr q ↦ q ]

other_rows :
    (id : Text) (p : Row → Bool) (xs : List Row)
    → For id p
    → All (λ (y : Row). text_eq y.input.id id ≡ false) xs
    → All (λ y. p y ≡ false) xs
other_rows id p xs one h =
    All-map (λ (y : Row). text_eq y.input.id id ≡ false) (λ y. p y ≡ false) xs
      (λ y e. other_row id p y one e) h

same_ids :
    (id : Text) (x : Row) (xs : List Row)
    → text_eq x.input.id id ≡ true
    → All (λ (y : Row). text_eq y.input.id x.input.id ≡ false) xs
    → All (λ (y : Row). text_eq y.input.id id ≡ false) xs
same_ids id x xs e h =
    subst (λ z. All (λ (y : Row). text_eq y.input.id z ≡ false) xs)
      ((text_eq_iff x.input.id id).0 e) h

-- If no row has the id, no row is affected.
pub not_found :
    (id : Text) (p : Row → Bool) (xs : List Row)
    → For id p
    → row_of id xs ≡ none
    → All (λ y. p y ≡ false) xs
unfolding row_of
not_found id p [] one h = tt
not_found id p (x ∷ xs) one h = elim (Bool-cases (text_eq x.input.id id)) [
  | inl e ↦ cc (row_of-first id x xs e, h)
  | inr e ↦ (other_row id p x one e, not_found id p xs one (sym (row_of-later id x xs e) ∙ h))
]

-- If the row of the id does not meet the condition, no row is affected.
pub not_met :
    (id : Text) (p : Row → Bool) (xs : List Row) (r : Row)
    → For id p
    → IsKeyed xs
    → row_of id xs ≡ some r
    → p r ≡ false
    → All (λ y. p y ≡ false) xs
unfolding row_of IsKeyed
not_met id p [] r one keyed h k = tt
not_met id p (x ∷ xs) r one keyed h k = elim (Bool-cases (text_eq x.input.id id)) [
  | inl e ↦ (
    subst (λ z. p z ≡ false) (some-injective r x (sym h ∙ row_of-first id x xs e)) k,
    other_rows id p xs one (same_ids id x xs e keyed.0),
  )
  | inr e ↦
      (other_row id p x one e, not_met id p xs r one keyed.1 (sym (row_of-later id x xs e) ∙ h) k)
]

-- If it meets the condition, it alone is affected.
pub met :
    (id : Text) (p : Row → Bool) (f : Row → Row) (xs : List Row) (r : Row)
    → For id p
    → IsKeyed xs
    → row_of id xs ≡ some r
    → p r ≡ true
    → text_eq (f r).input.id id ≡ true
    → (affected p xs ≡ 1) × (row_of id (update p f xs) ≡ some (f r))
unfolding row_of IsKeyed affected update
met id p f [] r one keyed h k same = cc h
met id p f (x ∷ xs) r one keyed h k same = elim (Bool-cases (text_eq x.input.id id)) [
  | inl e ↦
      let s = some-injective r x (sym h ∙ row_of-first id x xs e) in
      let hit : p x ≡ true = subst (λ z. p z ≡ true) s k in
      let none_else = affected_none p xs (other_rows id p xs one (same_ids id x xs e keyed.0)) in
      (
        rw hit (ap suc none_else),
        rw hit (
            row_of-first id (f x) (update p f xs)
              (subst (λ z. text_eq (f z).input.id id ≡ true) s same)
            ∙ ap (λ z. some (f z)) (sym s)),
      )
  | inr e ↦
      let rest = met id p f xs r one keyed.1 (sym (row_of-later id x xs e) ∙ h) k same in
      let miss = other_row id p x one e in
      (rw miss rest.0, rw miss (row_of-later id x (update p f xs) e ∙ rest.1))
]
