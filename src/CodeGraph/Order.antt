-- ===== src/CodeGraph/Order.antt =====
-- The comparator of the snapshots is an order, and the selected snapshot is a best one.
use mathlib.Core.List.{Mem, Perm, mem-cons_self}
use mathlib.Core.List.Perm
use mathlib.Core.Path.{subst}
use codeintel.Base.{
  inl, inr, ℕ, ◌≡◌, refl, Bool, true, false, not, some, List, [], ◌∷◌, is_some, if◌then◌else◌,
  Bool-cases, arith, All-mem, Bool_eq-prop, sort_by, IsOrder, IsSortedBy, sort_by-perm,
  sort_by-IsSortedBy, lex_lt, lex-IsOrder, IsOrder-by_key,
}
use codeintel.Base.Int.{ℤ, pos, negsuc, sub_ℕ, eqb_ℤ, ltb_ℤ, negate, int-IsLinear}
use codeintel.CodeGraph.{
  CodeGraphIndexInput, bool_to_int, date_ms, is_current_graph_snapshot, status_rank,
  compare_code_graph_index_for_current, current_less, sort_code_graph_indexes_for_status, first,
  select_current_code_graph_index, or_else,
}

-- The keys of a snapshot, each ascending: current first, best status, not superseded, newest.
abbrev keys : CodeGraphIndexInput → List ℤ
keys a =
    pos (bool_to_int (not (is_current_graph_snapshot a)))
    ∷ pos (status_rank a.status)
    ∷ pos (bool_to_int (is_some a.superseded_at))
    ∷ negate (date_ms a.indexed_at)
    ∷ []

-- One `if v != 0` of the chain is one key of the lexicographic order.
key_step :
    (v : ℤ) (m n : ℕ) (rest : ℤ) (ks ls : List ℤ)
    → v ≡ sub_ℕ m n
    → ltb_ℤ rest (pos 0) ≡ lex_lt eqb_ℤ ltb_ℤ ks ls
    → ltb_ℤ (or_else v rest) (pos 0) ≡ lex_lt eqb_ℤ ltb_ℤ (pos m ∷ ks) (pos n ∷ ls)
unfolding lex_lt
key_step v m n rest ks ls e h = rw e (ground arith)

descending :
    (p q : Bool)
    → sub_ℕ (bool_to_int q) (bool_to_int p) ≡ sub_ℕ (bool_to_int (not p)) (bool_to_int (not q))
descending true true = refl
descending true false = refl
descending false true = refl
descending false false = refl

present :
    (p q : Bool)
    → sub_ℕ (bool_to_int (not q)) (bool_to_int (not p)) ≡ sub_ℕ (bool_to_int p) (bool_to_int q)
present true true = refl
present true false = refl
present false true = refl
present false false = refl

-- The last comparison, of the times of `a` and `b`.
abbrev by_time : ℤ → ℤ → ℤ
by_time ams bms = if not (eqb_ℤ bms ams) then if ltb_ℤ ams bms then pos 1 else negsuc 0 else pos 0

newest :
    (ams bms : ℤ)
    → ltb_ℤ (by_time ams bms) (pos 0) ≡ lex_lt eqb_ℤ ltb_ℤ (negate ams ∷ []) (negate bms ∷ [])
unfolding lex_lt
newest ams bms = ground arith

chain-keys :
    (ca cb : Bool) (ra rb : ℕ) (sa sb : Bool) (ta tb : ℤ)
    → ltb_ℤ
        (or_else (sub_ℕ (bool_to_int cb) (bool_to_int ca)) (
          or_else
            (sub_ℕ ra rb)
            (or_else (sub_ℕ (bool_to_int (not sb)) (bool_to_int (not sa))) (by_time ta tb))))
        (pos 0)
      ≡ lex_lt eqb_ℤ ltb_ℤ
          (pos (bool_to_int (not ca)) ∷ pos ra ∷ pos (bool_to_int sa) ∷ negate ta ∷ [])
          (pos (bool_to_int (not cb)) ∷ pos rb ∷ pos (bool_to_int sb) ∷ negate tb ∷ [])
chain-keys ca cb ra rb sa sb ta tb =
    let v3 = sub_ℕ (bool_to_int (not sb)) (bool_to_int (not sa)) in
    let third = or_else v3 (by_time ta tb) in
    let ks3 : List ℤ = pos (bool_to_int sa) ∷ negate ta ∷ [] in
    let ls3 : List ℤ = pos (bool_to_int sb) ∷ negate tb ∷ [] in
    let h3 =
      key_step v3 (bool_to_int sa) (bool_to_int sb) (by_time ta tb) (negate ta ∷ [])
        (negate tb ∷ []) (present sa sb) (newest ta tb) in
    let h2 = key_step (sub_ℕ ra rb) ra rb third ks3 ls3 refl h3 in
    key_step (sub_ℕ (bool_to_int cb) (bool_to_int ca)) (bool_to_int (not ca)) (bool_to_int (not cb))
      (or_else (sub_ℕ ra rb) third) (pos ra ∷ ks3) (pos rb ∷ ls3) (descending ca cb) h2

current_less-keys :
    (a b : CodeGraphIndexInput) → current_less a b ≡ lex_lt eqb_ℤ ltb_ℤ (keys a) (keys b)
unfolding current_less compare_code_graph_index_for_current
current_less-keys a b =
    chain-keys (is_current_graph_snapshot a) (is_current_graph_snapshot b) (status_rank a.status)
      (status_rank b.status) (is_some a.superseded_at) (is_some b.superseded_at)
      (date_ms a.indexed_at) (date_ms b.indexed_at)

pub current-IsOrder : IsOrder current_less
current-IsOrder =
    IsOrder-by_key keys (lex_lt eqb_ℤ ltb_ℤ) current_less current_less-keys
      (lex-IsOrder eqb_ℤ ltb_ℤ int-IsLinear)

less_self : (a : CodeGraphIndexInput) → current_less a a ≡ false
less_self a = elim (Bool-cases (current_less a a)) [
  | inl h ↦ current-IsOrder.asym a a h
  | inr h ↦ h
]

first_is_best :
    (sorted : List CodeGraphIndexInput) {m : CodeGraphIndexInput} (x : CodeGraphIndexInput)
    → IsSortedBy current_less sorted
    → first sorted ≡ some m
    → Mem x sorted
    → current_less x m ≡ false
first_is_best [] x s e i = cc
first_is_best (y ∷ ys) {m} x s e i =
    let p : y ≡ m = cc in
    subst (λ z. current_less x z ≡ false) p
      (All-mem (λ z. current_less z y ≡ false) (y ∷ ys) x (λ z. Bool_eq-prop _ _) (less_self y, s.0)
        i)

first-mem : (xs : List CodeGraphIndexInput) {m : CodeGraphIndexInput} → first xs ≡ some m → Mem m xs
first-mem [] e = cc
first-mem (y ∷ ys) {m} e = let p : y ≡ m = cc in subst (λ z. Mem z (y ∷ ys)) p mem-cons_self

-- The selected snapshot is one of the given ones, and none of them comes before it.
pub selected_is_best :
    (indexes : List CodeGraphIndexInput) {m : CodeGraphIndexInput}
    → select_current_code_graph_index indexes ≡ some m
    → Mem m indexes × ((x : CodeGraphIndexInput) → Mem x indexes → current_less x m ≡ false)
unfolding select_current_code_graph_index sort_code_graph_indexes_for_status
selected_is_best [] e = cc
selected_is_best (y ∷ ys) e = (
  (Perm.mem_iff (sort_by-perm current_less (y ∷ ys))).0
      (first-mem (sort_by current_less (y ∷ ys)) e),
  λ x i.
      first_is_best (sort_by current_less (y ∷ ys)) x
        (sort_by-IsSortedBy current_less current-IsOrder (y ∷ ys)) e
        ((Perm.mem_iff (sort_by-perm current_less (y ∷ ys))).1 i),
)

current_first :
    (x m : CodeGraphIndexInput)
    → current_less x m ≡ false
    → is_current_graph_snapshot x ≡ true
    → is_current_graph_snapshot m ≡ true
unfolding lex_lt
current_first x m l c = ground (arith, current_less-keys x m)

-- If a READY snapshot with a revision is among the given ones, such a one is selected.
pub selected_is_current :
    (indexes : List CodeGraphIndexInput) {m : CodeGraphIndexInput} (x : CodeGraphIndexInput)
    → select_current_code_graph_index indexes ≡ some m
    → Mem x indexes
    → is_current_graph_snapshot x ≡ true
    → is_current_graph_snapshot m ≡ true
selected_is_current indexes {m} x e i c = current_first x m ((selected_is_best indexes e).1 x i) c

-- The list for the status page holds the same snapshots, in the comparator's order.
pub status_order :
    (indexes : List CodeGraphIndexInput)
    → Perm (sort_code_graph_indexes_for_status indexes) indexes
      × IsSortedBy current_less (sort_code_graph_indexes_for_status indexes)
unfolding sort_code_graph_indexes_for_status
status_order indexes =
    (sort_by-perm current_less indexes, sort_by-IsSortedBy current_less current-IsOrder indexes)
