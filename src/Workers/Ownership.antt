-- ===== src/Workers/Ownership.antt =====
-- Each SCIP worker class and each executor queue belongs to one class of the table.
use mathlib.Core.Logic.Or
use mathlib.Core.Path.{subst}
use mathlib.Core.List.{Mem, mem-cons, mem-cons_self, mem-cons_of_mem, not-mem-nil}
use codeintel.Base.{
  ◌≡◌, refl, sym, ◌∙◌, ap, inl, inr, Bool, true, false, Option, some, List, [], ◌∷◌, ◌++◌, map,
  arith, Bool-cases, Bool_eq-prop, ◌↔◌, Text, text_eq, text_eq_iff, contains_string,
  contains-append, contains-sort_strings, AllDistinct, All, All-mem, is_empty,
}
use codeintel.Workers.Queues.{go_subscribed_queues, executor_queues}
use codeintel.Workers.{
  WorkerClass, classes, find_class, by_name, for_scip_worker_class, queue_names,
}

-- The SCIP worker classes of a table, in order.
abbrev scip_names : List WorkerClass → List Text
scip_names [] = []
scip_names (c ∷ cs) = c.scip_worker_classes ++ scip_names cs

abbrev class_names : List WorkerClass → List Text
class_names cs = map (λ (c : WorkerClass). c.name) cs

find-mem :
    (p : WorkerClass → Bool) (cs : List WorkerClass) {c : WorkerClass}
    → find_class p cs ≡ some c
    → Mem c cs × (p c ≡ true)
unfolding find_class
find-mem p [] h = cc
find-mem p (x ∷ xs) {c} h = elim (Bool-cases (p x)) [
  | inl e ↦
      let q : x ≡ c = ground (arith, h, e) in
      (subst (λ z. Mem z (x ∷ xs)) q mem-cons_self, subst (λ z. p z ≡ true) q e)
  | inr e ↦ let (m, t) = find-mem p xs (rw e at h) in (mem-cons_of_mem x m, t)
]

distinct_parts :
    (xs ys : List Text) (s : Text)
    → AllDistinct (xs ++ ys)
    → contains_string xs s ≡ true
    → contains_string ys s ≡ false
unfolding contains_string
distinct_parts [] ys s d h = cc
distinct_parts (x ∷ xs) ys s d h = elim (Bool-cases (text_eq x s)) [
  | inl e ↦
      let q : x ≡ s = (text_eq_iff x s).0 e in
      subst (λ z. contains_string ys z ≡ false) q (ground (arith, d.0, contains-append xs ys x))
  | inr e ↦ distinct_parts xs ys s d.1 (ground arith)
]

distinct_rest : (xs ys : List Text) → AllDistinct (xs ++ ys) → AllDistinct ys
distinct_rest [] ys d = d
distinct_rest (x ∷ xs) ys d = distinct_rest xs ys d.1

owned :
    (cs : List WorkerClass) (c : WorkerClass) (s : Text)
    → Mem c cs
    → contains_string c.scip_worker_classes s ≡ true
    → contains_string (scip_names cs) s ≡ true
owned [] c s m h = absurd (not-mem-nil m)
owned (x ∷ xs) c s m h =
    contains-append x.scip_worker_classes (scip_names xs) s
    ∙ Or.elim (Bool_eq-prop _ _) (mem-cons.0 m)
        (λ e. ground (arith, subst (λ z. contains_string z.scip_worker_classes s ≡ true) e h))
        (λ r. ground (arith, owned xs c s r h))

WorkerClass_option-set : IsSet (Option WorkerClass)
WorkerClass_option-set = hlevel

find-owner :
    (cs : List WorkerClass) (c : WorkerClass) (s : Text)
    → AllDistinct (scip_names cs)
    → Mem c cs
    → contains_string c.scip_worker_classes s ≡ true
    → find_class (λ k. contains_string k.scip_worker_classes s) cs ≡ some c
unfolding find_class
find-owner [] c s d m h = absurd (not-mem-nil m)
find-owner (x ∷ xs) c s d m h =
    Or.elim (WorkerClass_option-set _ _) (mem-cons.0 m)
      (λ e. rw (subst (λ z. contains_string z.scip_worker_classes s ≡ true) e h) (ap some (sym e)))
      (λ r.
        rw (other r)
          (find-owner xs c s (distinct_rest x.scip_worker_classes (scip_names xs) d) r h))
  where
    other : Mem c xs → contains_string x.scip_worker_classes s ≡ false
    other r = elim (Bool-cases (contains_string x.scip_worker_classes s)) [
      | inr f ↦ f
      | inl t ↦ cc (distinct_parts x.scip_worker_classes (scip_names xs) s d t, owned xs c s r h)
    ]

scip_names-AllDistinct : AllDistinct (scip_names classes)
unfolding contains_string text_eq
scip_names-AllDistinct = (refl, (refl, (refl, (refl, (refl, (refl, (refl, (refl, tt))))))))

by_name-classes : All (λ (c : WorkerClass). by_name c.name ≡ some c) classes
unfolding by_name text_eq
by_name-classes = (refl, (refl, (refl, (refl, (refl, (refl, (refl, (refl, tt))))))))

-- Every class of the table is found by its name.
pub class_by_name : (c : WorkerClass) → Mem c classes → by_name c.name ≡ some c
class_by_name c m =
    All-mem (λ (k : WorkerClass). by_name k.name ≡ some k) classes c
      (λ k. WorkerClass_option-set (by_name k.name) (some k)) by_name-classes m

pub by_name-Mem : (name : Text) (c : WorkerClass) → by_name name ≡ some c → Mem c classes
unfolding by_name
by_name-Mem name c h = (find-mem (λ (k : WorkerClass). text_eq k.name name) classes h).0

named_classes :
    All (λ (c : WorkerClass). (is_empty c.name ≡ false) × (is_empty c.queue_name ≡ false)) classes
named_classes = (
  (refl, refl),
  (
    (refl, refl),
    (
      (refl, refl),
      ((refl, refl), ((refl, refl), ((refl, refl), ((refl, refl), ((refl, refl), tt))))),
    ),
  ),
)

pub class_names_filled :
    (c : WorkerClass) → Mem c classes → (is_empty c.name ≡ false) × (is_empty c.queue_name ≡ false)
class_names_filled c m =
    All-mem (λ (k : WorkerClass). (is_empty k.name ≡ false) × (is_empty k.queue_name ≡ false))
      classes c (λ k. hlevel) named_classes m

-- `ForSCIPWorkerClass` finds a class exactly if that class of the table lists the name.
pub scip_owner :
    (c : WorkerClass) (s : Text)
    → (for_scip_worker_class s ≡ some c)
      ↔ (Mem c classes × (contains_string c.scip_worker_classes s ≡ true))
unfolding for_scip_worker_class
scip_owner c s = (
  λ h. find-mem (λ k. contains_string k.scip_worker_classes s) classes h,
  λ h. find-owner classes c s scip_names-AllDistinct h.0 h.1,
)

queues-AllDistinct : AllDistinct (executor_queues ++ go_subscribed_queues)
unfolding contains_string text_eq
queues-AllDistinct = (
  refl,
  (
    refl,
    (
      refl,
      (refl, (refl, (refl, (refl, (refl, (refl, (refl, (refl, (refl, (refl, (refl, tt))))))))))),
    ),
  ),
)

-- The queues of the table are exactly the executor queues, and the backend's own server subscribes
-- to none of them.
pub executor_queues_lem :
    (q : Text)
    → (contains_string queue_names q ≡ contains_string executor_queues q)
      × (contains_string queue_names q ≡ true → contains_string go_subscribed_queues q ≡ false)
unfolding queue_names
executor_queues_lem q =
    let same = contains-sort_strings (map (λ (c : WorkerClass). c.queue_name) classes) q in
    (
      same,
      λ h. distinct_parts executor_queues go_subscribed_queues q queues-AllDistinct (sym same ∙ h),
    )
