-- ===== src/Planner/Digests.antt =====
-- What is hashed tells the parts, and so the subjobs, apart.
use mathlib.Core.Path.{ap₂}
use codeintel.Base.{
  ◌≡◌, refl, sym, ap, ◌∙◌, inl, inr, Bool, true, false, not, ◌&&◌, List, [], ◌∷◌, ◌++◌, ℕ, ◌+◌, ◌-◌,
  ◌*◌, ◌/◌, ◌%◌, ◌<◌, ◌==◌, zero, suc, ltb, arith, All, Bool-cases, Text,
}
use codeintel.Base.Int.{ℤ, pos, negsuc, leb_ℤ}
use codeintel.Planner.{Revision, Input, digits, sprint, hashed_bytes, id_parts, string_ptr_value}

-- No zero byte.
abbrev pub no_nul : Text → Bool
no_nul [] = true
no_nul (c ∷ cs) = not (c == 0) && no_nul cs

abbrev pub NoNul : Text → Type 0
NoNul s = no_nul s ≡ true

up_to_nul : (x y r s : Text) → NoNul x → NoNul y → x ++ 0 ∷ r ≡ y ++ 0 ∷ s → (x ≡ y) × (r ≡ s)
up_to_nul [] [] r s h k e = (refl, ground (arith, e))
up_to_nul [] (y ∷ ys) r s h k e = ground (arith, e)
up_to_nul (x ∷ xs) [] r s h k e = ground (arith, e)
up_to_nul (x ∷ xs) (y ∷ ys) r s h k e =
    let (p, q) = up_to_nul xs ys r s (ground arith) (ground arith) (ground (arith, e)) in
    (ground (arith, p, e), q)

-- Parts without zero bytes are told apart by the bytes that are hashed.
pub hashed_bytes-injective :
    (xs ys : List Text) → All NoNul xs → All NoNul ys → hashed_bytes xs ≡ hashed_bytes ys → xs ≡ ys
unfolding hashed_bytes
hashed_bytes-injective [] [] h k e = refl
hashed_bytes-injective [] ([] ∷ ys) h k e = ground (arith, e)
hashed_bytes-injective [] ((c ∷ cs) ∷ ys) h k e = ground (arith, e)
hashed_bytes-injective ([] ∷ xs) [] h k e = ground (arith, e)
hashed_bytes-injective ((c ∷ cs) ∷ xs) [] h k e = ground (arith, e)
hashed_bytes-injective (x ∷ xs) (y ∷ ys) h k e =
    let (p, q) = up_to_nul x y (hashed_bytes xs) (hashed_bytes ys) h.0 k.0 e in
    ap₂ (λ a rest. a ∷ rest) p (hashed_bytes-injective xs ys h.1 k.1 q)

-- The number that decimal digits stand for.
abbrev value_from : ℕ → Text → ℕ
value_from n [] = n
value_from n (c ∷ cs) = value_from (10 * n + (c - 48)) cs

value_from-append :
    (n : ℕ) (s : Text) (c : ℕ) → value_from n (s ++ c ∷ []) ≡ 10 * value_from n s + (c - 48)
value_from-append n [] c = refl
value_from-append n (x ∷ xs) c = value_from-append (10 * n + (x - 48)) xs c

value-digits : (k n : ℕ) → n < k → value_from 0 (digits k n) ≡ n
unfolding digits
value-digits zero n h = omega arith
value-digits (suc k) n h = elim (Bool-cases (ltb n 10)) [
  | inl small ↦ ground (arith, small)
  | inr big ↦
      let less : n / 10 < k = ground (arith, big, h) in
      ground (
        arith,
        big,
        value_from-append 0 (digits k (n / 10)) (48 + n % 10),
        value-digits k (n / 10) less,
      )
]

NoNul-append : (s : Text) (c : ℕ) → no_nul (s ++ c ∷ []) ≡ (no_nul s && not (c == 0))
NoNul-append [] c = ground arith
NoNul-append (x ∷ xs) c = ground (arith, NoNul-append xs c)

digits-NoNul : (k n : ℕ) → NoNul (digits k n)
unfolding digits
digits-NoNul zero n = refl
digits-NoNul (suc k) n = elim (Bool-cases (ltb n 10)) [
  | inl small ↦ ground (arith, small)
  | inr big ↦
      ground (arith, big, digits-NoNul k (n / 10), NoNul-append (digits k (n / 10)) (48 + n % 10))
]

-- The decimal notation of a positive number names it.
sprint-injective :
    (a b : ℤ) → leb_ℤ a (pos 0) ≡ false → leb_ℤ b (pos 0) ≡ false → sprint a ≡ sprint b → a ≡ b
unfolding sprint
sprint-injective (pos m) (pos n) h k e = ap pos (
    sym (value-digits (suc m) m (omega arith))
    ∙ ap (value_from 0) e
    ∙ value-digits (suc n) n (omega arith))
sprint-injective (negsuc m) b h k e = ground (arith, h)
sprint-injective (pos m) (negsuc n) h k e = ground (arith, k)

sprint-NoNul : (a : ℤ) → NoNul (sprint a)
unfolding sprint
sprint-NoNul (pos n) = digits-NoNul (suc n) n
sprint-NoNul (negsuc n) = ground (arith, digits-NoNul (suc (suc n)) (suc n))

abbrev at : ℕ → List Text → Text
at n [] = []
at zero (x ∷ xs) = x
at (suc n) (x ∷ xs) = at n xs

-- Two subjobs whose identities feed the same bytes to the hash agree in every part of them: with
-- positive ids and no zero byte in a part, no two subjobs are confused before the hash.
pub subjob_identity :
    (a b : Input) (r s : Revision)
    (layer layer' class class' lang lang' root root' indexer indexer' : Text)
    → leb_ℤ a.org_id (pos 0) ≡ false
    → leb_ℤ a.repo_id (pos 0) ≡ false
    → leb_ℤ b.org_id (pos 0) ≡ false
    → leb_ℤ b.repo_id (pos 0) ≡ false
    → All NoNul (id_parts a r layer class lang root indexer)
    → All NoNul (id_parts b s layer' class' lang' root' indexer')
    → hashed_bytes (id_parts a r layer class lang root indexer)
      ≡ hashed_bytes (id_parts b s layer' class' lang' root' indexer')
    → (a.repo_indexing_job_id ≡ b.repo_indexing_job_id)
      × (a.org_id ≡ b.org_id)
      × (string_ptr_value r.workspace_id ≡ string_ptr_value s.workspace_id)
      × (a.repo_id ≡ b.repo_id)
      × (r.branch ≡ s.branch)
      × (r.revision ≡ s.revision)
      × (r.commit_hash ≡ s.commit_hash)
      × (layer ≡ layer')
      × (class ≡ class')
      × (lang ≡ lang')
      × (root ≡ root')
      × (indexer ≡ indexer')
unfolding id_parts
subjob_identity a b r s layer layer' class class' lang lang' root root' indexer indexer' ao ar bo br
      h k e =
    let parts =
      hashed_bytes-injective (id_parts a r layer class lang root indexer)
        (id_parts b s layer' class' lang' root' indexer') h k e in
    (
      ap (at 1) parts,
      sprint-injective a.org_id b.org_id ao bo (ap (at 2) parts),
      ap (at 3) parts,
      sprint-injective a.repo_id b.repo_id ar br (ap (at 4) parts),
      ap (at 5) parts,
      ap (at 6) parts,
      ap (at 7) parts,
      ap (at 8) parts,
      ap (at 9) parts,
      ap (at 10) parts,
      ap (at 11) parts,
      ap (at 12) parts,
    )
