-- ===== src/Policy/Hints.antt =====
-- The mandatory hints are few and differ, and what the key of the map makes of the lines.
use mathlib.Core.Path.{subst}
use codeintel.Base.{
  ◌≡◌, refl, sym, ap, ◌∙◌, inl, inr, Bool, true, false, not, List, [], ◌∷◌, ◌++◌, map, ◌≤◌, leb,
  All, All-append, AllDistinct, arith, length, length-append, contains-append, Text, codes, text_eq,
  text_eq_iff, text_eq_self, contains, contains_string, if◌then◌else◌, Bool-cases,
}
use codeintel.Policy.{
  SourceHint, Collected, max_hints, hint_key, add, add_all, hint, otlp_hints, operator_hints,
}
use codeintel.Policy.Queries.{repo_hints, collect, mandatory_source_hints}

-- At most the limit, the keys seen are those of the hints, and these differ.
abbrev IsBounded : Collected → Type 0
IsBounded c =
    (length c.out ≤ max_hints)
    × ((b : Text) → contains_string c.seen b ≡ contains_string (map hint_key c.out) b)
    × AllDistinct (map hint_key c.out)

map-snoc :
    (hs : List SourceHint) (h : SourceHint)
    → map hint_key (hs ++ h ∷ []) ≡ map hint_key hs ++ hint_key h ∷ []
map-snoc [] h = refl
map-snoc (x ∷ xs) h = ap (λ rest. hint_key x ∷ rest) (map-snoc xs h)

snoc-AllDistinct :
    (xs : List Text) (b : Text)
    → AllDistinct xs
    → contains_string xs b ≡ false
    → AllDistinct (xs ++ b ∷ [])
unfolding contains_string
snoc-AllDistinct [] b h k = (refl, tt)
snoc-AllDistinct (x ∷ xs) b h k = (
  contains-append xs (b ∷ []) x
      ∙ ground (arith, h.0, k, text_eq_iff b x, text_eq_iff x b, text_eq_self x),
  snoc-AllDistinct xs b h.1 (ground (arith, k)),
)

add-IsBounded : (h : SourceHint) (c : Collected) → IsBounded c → IsBounded (add h c)
unfolding add
add-IsBounded h c i = elim (Bool-cases (leb max_hints (length c.out))) [
  | inl e ↦ rw (add, e) i
  | inr e ↦ elim (Bool-cases (contains_string c.seen (hint_key h))) [
    | inl k ↦ rw (add, e, k) i
    | inr k ↦
        rw (add, e, k)
          (
            ground (arith, e, length-append c.out (h ∷ [])),
            λ b.
                let n = i.1 b in
                rw (map-snoc c.out h)
                  (ground (arith, n, contains-append (map hint_key c.out) (hint_key h ∷ []) b)),
            rw (map-snoc c.out h) (
                snoc-AllDistinct (map hint_key c.out) (hint_key h) i.2
                  (sym (i.1 (hint_key h)) ∙ k)),
          )
  ]
]

add_all-IsBounded : (hs : List SourceHint) (c : Collected) → IsBounded c → IsBounded (add_all hs c)
add_all-IsBounded [] c i = i
add_all-IsBounded (h ∷ hs) c i = add_all-IsBounded hs (add h c) (add-IsBounded h c i)

add_full : (g : SourceHint) (c : Collected) → leb max_hints (length c.out) ≡ true → add g c ≡ c
unfolding add
add_full g c e = rw (add, e) refl

add_known :
    (g : SourceHint) (c : Collected) → contains_string c.seen (hint_key g) ≡ true → add g c ≡ c
unfolding add
add_known g c k = elim (Bool-cases (leb max_hints (length c.out))) [
  | inl e ↦ add_full g c e
  | inr e ↦ rw (add, e, k) refl
]

add_new :
    (h : SourceHint) (c : Collected)
    → leb max_hints (length c.out) ≡ false
    → contains_string c.seen (hint_key h) ≡ false
    → add h c ≡ record { out = c.out ++ h ∷ []; seen = hint_key h ∷ c.seen }
unfolding add
add_new h c e k = rw (add, e, k) refl

-- A second hint with the key of the first is dropped.
add_again : (g h : SourceHint) (c : Collected) → hint_key g ≡ hint_key h → add g (add h c) ≡ add h c
unfolding contains_string
add_again g h c same = elim (Bool-cases (leb max_hints (length c.out))) [
  | inl e ↦ ap (add g) (add_full h c e) ∙ add_full g c e ∙ sym (add_full h c e)
  | inr e ↦ elim (Bool-cases (contains_string c.seen (hint_key h))) [
    | inl k ↦ ap (add g) (add_known h c k) ∙ add_known g c (rw same k) ∙ sym (add_known h c k)
    | inr k ↦
        ap (add g) (add_new h c e k)
        ∙ add_known g _ (rw same (rw (text_eq_self (hint_key h)) refl))
        ∙ sym (add_new h c e k)
  ]
]

-- A hint on the file has the first of its lines.
abbrev AtFirst : SourceHint → Type 0
AtFirst h = text_eq h.path (codes "apis/v1alpha1/instrumentation_types.go") ≡ true → h.line ≡ 13

add-AtFirst :
    (h : SourceHint) (c : Collected) → AtFirst h → All AtFirst c.out → All AtFirst (add h c).out
unfolding add
add-AtFirst h c p i = elim (Bool-cases (leb max_hints (length c.out))) [
  | inl e ↦ rw (add, e) i
  | inr e ↦ elim (Bool-cases (contains_string c.seen (hint_key h))) [
    | inl k ↦ rw (add, e, k) i
    | inr k ↦ rw (add, e, k) (All-append AtFirst c.out (h ∷ []) i (p, tt))
  ]
]

add_all-AtFirst :
    (hs : List SourceHint) (c : Collected)
    → All AtFirst hs
    → All AtFirst c.out
    → All AtFirst (add_all hs c).out
add_all-AtFirst [] c p i = i
add_all-AtFirst (h ∷ hs) c p i = add_all-AtFirst hs (add h c) p.1 (add-AtFirst h c p.0 i)

add_all-append :
    (gs hs : List SourceHint) (c : Collected) → add_all (gs ++ hs) c ≡ add_all hs (add_all gs c)
add_all-append [] hs c = refl
add_all-append (g ∷ gs) hs c = add_all-append gs hs (add g c)

abbrev either {ℓ} : {A : Type ℓ} → Bool → List A → List A → List A
either b xs ys = if b then xs else ys

either-All :
    (b : Bool) (xs ys : List SourceHint)
    → All AtFirst xs
    → All AtFirst ys
    → All AtFirst (either b xs ys)
either-All true xs ys h k = h
either-All false xs ys h k = k

otlp_hints-AtFirst : (repo lower : Text) → All AtFirst (otlp_hints repo lower)
unfolding otlp_hints text_eq
otlp_hints-AtFirst repo lower =
    either-All (contains lower _) _ _ (λ e. cc e, (λ e. cc e, tt))
      (either-All (contains lower _) _ _ (λ e. cc e, (λ e. cc e, tt))
        (either-All (contains lower _) _ _ (λ e. cc e, (λ e. cc e, tt))
          (either-All (contains lower _) _ _ (λ e. cc e, (λ e. cc e, tt))
            (either-All (contains lower _) _ _ (λ e. cc e, (λ e. cc e, tt))
              (either-All (contains lower _) _ _ (λ e. cc e, (λ e. cc e, tt))
                (either-All (contains lower _) _ _ (λ e. cc e, (λ e. cc e, tt))
                  (either-All (contains lower _) _ _ (λ e. cc e, (λ e. cc e, tt))
                    (either-All (contains lower _) _ _ (λ e. cc e, (λ e. cc e, (λ e. cc e, tt)))
                      (tt)))))))))

either_way :
    (P : List SourceHint → Type 0) (b : Bool) (xs ys : List SourceHint)
    → P xs
    → P ys
    → P (if b then xs else ys)
either_way P true xs ys h k = h
either_way P false xs ys h k = k

-- The loop adds the later hints on the file in vain.
operator_once :
    (repo : Text) (c : Collected)
    → All AtFirst c.out
    → All AtFirst (add_all (operator_hints repo) c).out
unfolding operator_hints hint_key text_eq
operator_once repo c i =
    let path = codes "apis/v1alpha1/instrumentation_types.go" in
    let h13 = hint repo path 13 (codes "crd-spec") 40 in
    let h232 = hint repo path 232 (codes "crd-spec") 40 in
    let h259 = hint repo path 259 (codes "crd-spec") 40 in
    let rest =
      hint repo (codes "config/webhook/manifests.yaml") 1 (codes "webhook-registration") 40
      ∷ hint repo (codes "config/default/manager_webhook_patch.yaml") 1
          (codes "webhook-registration") 40
      ∷ hint repo (codes "main.go") 448 (codes "webhook-registration") 40
      ∷ [] in
    let same =
      ap (λ z. add_all rest (add h259 z)) (add_again h232 h13 c refl)
      ∙ ap (add_all rest) (add_again h259 h13 c refl) in
    subst (λ (z : Collected). All AtFirst z.out) (sym same)
      (add_all-AtFirst rest (add h13 c) ((λ e. cc e), ((λ e. cc e), ((λ e. cc e), tt)))
        (add-AtFirst h13 c (λ _. refl) i))

module _ (to_lower : Text → Text) where
  repo_hints-AtFirst :
      (python otlp : Bool) (repo : Text) (c : Collected)
      → All AtFirst c.out
      → All AtFirst (add_all (repo_hints to_lower python otlp repo) c).out
  unfolding repo_hints text_eq
  repo_hints-AtFirst python otlp repo c i =
      let lower = to_lower repo in
      let flow = either otlp (otlp_hints repo lower) [] in
      let extra =
        either python
          (hint repo (codes "internal/instrumentation/python.go") 1 (codes "python-constants") 40
            ∷ [])
          [] in
      let j = add_all-AtFirst flow c (either-All otlp _ [] (otlp_hints-AtFirst repo lower) tt) i in
      rw
        (add_all-append flow
          (if not (contains lower (codes "operator")) then [] else operator_hints repo ++ extra) c)
        (elim (Bool-cases (contains lower (codes "operator"))) [
          | inr e ↦ rw e j
          | inl e ↦
              rw (e, add_all-append (operator_hints repo) extra (add_all flow c))
                (add_all-AtFirst extra _ (either-All python _ [] ((λ q. cc q), tt) tt)
                  (operator_once repo (add_all flow c) j))
        ])

  collect-AtFirst :
      (python otlp : Bool) (repos : List Text) (c : Collected)
      → All AtFirst c.out
      → All AtFirst (collect to_lower python otlp repos c).out
  collect-AtFirst python otlp [] c i = i
  collect-AtFirst python otlp (repo ∷ repos) c i =
      collect-AtFirst python otlp repos _ (repo_hints-AtFirst python otlp repo c i)

  collect-IsBounded :
      (python otlp : Bool) (repos : List Text) (c : Collected)
      → IsBounded c
      → IsBounded (collect to_lower python otlp repos c)
  collect-IsBounded python otlp [] c i = i
  collect-IsBounded python otlp (repo ∷ repos) c i =
      collect-IsBounded python otlp repos _
        (add_all-IsBounded (repo_hints to_lower python otlp repo) c i)

  collected :
      (P : List SourceHint → Type 0) (query : Text) (repos : List Text)
      → P []
      → ((python otlp : Bool)
          → P (collect to_lower python otlp repos (record { out = []; seen = [] })).out)
      → P (mandatory_source_hints to_lower query repos)
  unfolding mandatory_source_hints
  collected P query repos none_of all_of = either_way P _ [] _ none_of (all_of _ _)

  -- There are at most 96 mandatory hints, whatever the query and the repositories, and no two of them
  -- have the same key.
  pub mandatory_hints_bounded :
      (query : Text) (repos : List Text)
      → (length (mandatory_source_hints to_lower query repos) ≤ 96)
        × AllDistinct (map hint_key (mandatory_source_hints to_lower query repos))
  mandatory_hints_bounded query repos =
      collected (λ hs. (length hs ≤ 96) × AllDistinct (map hint_key hs)) query repos
        (omega arith, tt)
        (λ python otlp.
          let i =
            collect-IsBounded python otlp repos (record { out = []; seen = [] })
              (omega arith, λ b. refl, tt) in
          (i.0, i.2))

  -- Every mandatory hint on apis/v1alpha1/instrumentation_types.go is on line 13: the hints on the
  -- lines 232 and 259 have the key of the first and are dropped.
  pub mandatory_crd_lines :
      (query : Text) (repos : List Text)
      → All
          (λ h.
            text_eq h.path (codes "apis/v1alpha1/instrumentation_types.go") ≡ true → h.line ≡ 13)
          (mandatory_source_hints to_lower query repos)
  mandatory_crd_lines query repos =
      collected (All AtFirst) query repos tt
        (λ python otlp. collect-AtFirst python otlp repos (record { out = []; seen = [] }) tt)
