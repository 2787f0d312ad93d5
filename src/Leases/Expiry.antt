-- ===== src/Leases/Expiry.antt =====
-- `RequeueExpiredLeases` leaves no lease behind that ended.
use codeintel.Base.{
  All-updated, ◌≡◌, refl, ap, ◌∙◌, inl, inr, Bool, true, false, not, ◌&&◌, ◌||◌, List, [], ◌∷◌, ℕ,
  zero, suc, ◌≤◌, All, All-map, arith, keep, length, length-keep-le, length-sort_by, first, sort_by,
  insert_by, Text, text_eq, text_eq_self, contains_string, Option-cases, Bool-cases,
}
use codeintel.Base.Int.{ℤ, pos, leb_ℤ, pos_part}
use codeintel.Leases.{Row, Store, done, respond, in_flight, is_semantic}
use codeintel.Leases.Requeues.{
  requeue_expired_leases, expired, is_expired, is_selected, requeue_row, requeue_status, parent_job,
  ids_of, lease_first,
}

first_all : (n : ℕ) (xs : List Row) → length xs ≤ n → first n xs ≡ xs
unfolding first
first_all zero [] h = refl
first_all zero (x ∷ xs) h = absurd (omega (arith, h))
first_all (suc n) [] h = refl
first_all (suc n) (x ∷ xs) h = ap (λ rest. x ∷ rest) (first_all n xs (omega (arith, h)))

contains_string-insert_by :
    (less : Row → Row → Bool) (x : Row) (ys : List Row) (id : Text)
    → contains_string (ids_of (insert_by less x ys)) id
      ≡ (text_eq x.input.id id || contains_string (ids_of ys) id)
unfolding contains_string insert_by
contains_string-insert_by less x [] id = refl
contains_string-insert_by less x (y ∷ ys) id = elim (Bool-cases (less y x)) [
  | inl e ↦ rw (e, contains_string-insert_by less x ys id) (ground arith)
  | inr e ↦ rw e refl
]

contains_string-sort_by :
    (less : Row → Row → Bool) (xs : List Row) (id : Text)
    → contains_string (ids_of (sort_by less xs)) id ≡ contains_string (ids_of xs) id
unfolding contains_string sort_by
contains_string-sort_by less [] id = refl
contains_string-sort_by less (x ∷ xs) id =
    contains_string-insert_by less x (sort_by less xs) id
    ∙ ap (λ b. text_eq x.input.id id || b) (contains_string-sort_by less xs id)

contains_string-keep :
    (p : Row → Bool) (xs : List Row)
    → All (λ (r : Row). p r ≡ true → contains_string (ids_of (keep p xs)) r.input.id ≡ true) xs
unfolding contains_string
contains_string-keep p [] = tt
contains_string-keep p (x ∷ xs) = (
  λ e. rw e (rw (text_eq_self x.input.id) refl),
  All-map (λ (r : Row). p r ≡ true → contains_string (ids_of (keep p xs)) r.input.id ≡ true)
      (λ (r : Row). p r ≡ true → contains_string (ids_of (keep p (x ∷ xs))) r.input.id ≡ true) xs
      (λ r h q. elim (Bool-cases (p x)) [
        | inl e ↦ rw e (let k = h q in ground (arith, k))
        | inr e ↦ rw e (h q)
      ])
      (contains_string-keep p xs),
)

-- A selection without an effective limit has the ids of all rows that pass.
selection_complete :
    (p : Row → Bool) (less : Row → Row → Bool) (n : ℕ) (xs : List Row)
    → length xs ≤ n
    → All
        (λ (r : Row).
          p r ≡ true
          → contains_string (ids_of (first n (sort_by less (keep p xs)))) r.input.id ≡ true)
        xs
selection_complete p less n xs h =
    let short = length-keep-le p xs in
    let same = length-sort_by less (keep p xs) in
    let all = first_all n (sort_by less (keep p xs)) (omega (arith, h, short, same)) in
    All-map (λ (r : Row). p r ≡ true → contains_string (ids_of (keep p xs)) r.input.id ≡ true)
      (λ (r : Row).
        p r ≡ true
        → contains_string (ids_of (first n (sort_by less (keep p xs)))) r.input.id ≡ true)
      xs (λ r k q. rw (all, contains_string-sort_by less (keep p xs) r.input.id) (k q))
      (contains_string-keep p xs)

requeued-not-in_flight :
    (s : Store) (clock : ℕ) (r : Row) → in_flight (requeue_row is_semantic s clock r).status ≡ false
unfolding requeue_row requeue_status
requeued-not-in_flight s clock r = elim (Option-cases (parent_job s r)) [
  | inl e ↦ rw (requeue_status, e) refl
  | inr (j, e) ↦ rw (requeue_status, e) (ground arith)
]

not-expired :
    (s : Store) (now : ℕ) (r : Row) → in_flight r.status ≡ false → is_expired s now r ≡ false
unfolding is_expired
not-expired s now r h = rw h refl

complete-expired :
    (s : Store) (now n : ℕ) (locked : Text → Bool) (r : Row)
    → ((id : Text) → locked id ≡ false)
    → ((is_expired s now r && not (locked r.input.id)) ≡ true
        → contains_string
            (ids_of (
              first n (
                sort_by lease_first
                  (keep (λ r. is_expired s now r && not (locked r.input.id)) s.subjobs))))
            r.input.id
          ≡ true)
    → is_selected s
        (ids_of (
          first n (
            sort_by lease_first
              (keep (λ r. is_expired s now r && not (locked r.input.id)) s.subjobs))))
        r
      ≡ false
    → is_expired s now r ≡ false
unfolding is_selected is_expired
complete-expired s now n locked r free chosen unselected = elim (Bool-cases (is_expired s now r)) [
  | inr e ↦ e
  | inl e ↦
      let unlocked = free r.input.id in
      let k = chosen (ground (arith, e, unlocked)) in ground (arith, k, e, unselected)
]

-- If the statement runs, no other transaction holds a row, and the limit is positive and at least the
-- number of subjobs, then after the call no row in flight has a lease that ended before that time and
-- a job to return to.
pub expired_leases_end :
    (locked : Text → Bool) (clock now : ℕ) (limit : ℤ) (s : Store)
    → ((id : Text) → locked id ≡ false)
    → leb_ℤ limit (pos 0) ≡ false
    → length s.subjobs ≤ pos_part limit
    → All
        (λ r. is_expired s now r ≡ false)
        (requeue_expired_leases done locked clock now limit s).0.subjobs
unfolding requeue_expired_leases expired respond
expired_leases_end locked clock now limit s free positive enough =
    rw (requeue_expired_leases, positive)
      (All-updated (λ r. is_expired s now r ≡ false) (is_selected s (expired locked s now limit))
        (requeue_row is_semantic s clock) s.subjobs
        (λ r.
          not-expired s now (requeue_row is_semantic s clock r) (requeued-not-in_flight s clock r))
        (All-map _ _ s.subjobs (λ r h q. complete-expired s now (pos_part limit) locked r free h q)
          (selection_complete (λ r. is_expired s now r && not (locked r.input.id)) lease_first
            (pos_part limit) s.subjobs enough)))
