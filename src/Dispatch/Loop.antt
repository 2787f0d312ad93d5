-- ===== src/Dispatch/Loop.antt =====
-- `DispatchReady`: the loop over the rows and its counts.
use codeintel.Base.{
  ◌≡◌, true, false, Option, none, some, List, [], ◌∷◌, suc, length, if◌then◌else◌, ok, err,
}
use codeintel.Base.Int.{ℤ}
use codeintel.Subjobs.{Json}
use codeintel.Dispatch.{
  DispatchableSubjob, DispatchStats, no_stats, Services, DispatchError, store_error, is_duplicate,
  enqueue, enqueue_rescue,
}

module _ {σ ε} {S : Type σ} {E : Type ε} (json : Json) (services : Services S E) where
  -- The loop, from the counts so far.
  unfoldable pub dispatch_rows :
      List DispatchableSubjob → DispatchStats → S → S × DispatchStats × Option (DispatchError E)
  unfolding enqueue enqueue_rescue
  dispatch_rows [] stats s = (s, stats, none)
  dispatch_rows (row ∷ rest) stats s =
      let (s1, failed) = enqueue json services row s in
      elim failed [
        | none ↦ dispatch_rows rest (record stats { enqueued = suc stats.enqueued }) s1
        | some e ↦
            if is_duplicate e
            then (let counted = record stats { duplicates = suc stats.duplicates } in
                let (s2, rescue_failed) = enqueue_rescue json services row s1 in
                elim rescue_failed [
                  | none ↦
                      dispatch_rows rest
                        (record counted { rescued_duplicates = suc counted.rescued_duplicates }) s2
                  | some f ↦
                      if is_duplicate f
                      then dispatch_rows rest counted s2
                      else (s2, counted, some f)
                ])
            else (s1, stats, some e)
      ]

  unfoldable pub dispatch_ready : ℤ → S → S × DispatchStats × Option (DispatchError E)
  unfolding dispatch_rows
  dispatch_ready limit s =
      let (s1, listed) = services.list_dispatchable limit s in
      elim listed [
        | err e ↦ (s1, no_stats, some (store_error e))
        | ok rows ↦ dispatch_rows rows (record no_stats { scanned = length rows }) s1
      ]

  pub sent :
      (row : DispatchableSubjob) (rest : List DispatchableSubjob) (stats : DispatchStats) (s : S)
      → (enqueue json services row s).1 ≡ none
      → dispatch_rows (row ∷ rest) stats s
        ≡ dispatch_rows rest
            (record stats { enqueued = suc stats.enqueued })
            (enqueue json services row s).0
  unfolding dispatch_rows
  sent row rest stats s h = rw (dispatch_rows, h)

  pub stopped :
      (row : DispatchableSubjob) (rest : List DispatchableSubjob) (stats : DispatchStats) (s : S)
      (e : DispatchError E)
      → (enqueue json services row s).1 ≡ some e
      → is_duplicate e ≡ false
      → dispatch_rows (row ∷ rest) stats s ≡ ((enqueue json services row s).0, stats, some e)
  unfolding dispatch_rows
  stopped row rest stats s e h d = rw (dispatch_rows, h, d)

  module _ (row : DispatchableSubjob) (rest : List DispatchableSubjob) (stats : DispatchStats)
      (s : S) (e : DispatchError E) (h : (enqueue json services row s).1 ≡ some e)
      (d : is_duplicate e ≡ true) where
    pub rescued :
        (enqueue_rescue json services row (enqueue json services row s).0).1 ≡ none
        → dispatch_rows (row ∷ rest) stats s
          ≡ dispatch_rows rest
              (record stats {
                duplicates = suc stats.duplicates;
                rescued_duplicates = suc stats.rescued_duplicates;
              })
              (enqueue_rescue json services row (enqueue json services row s).0).0
    unfolding dispatch_rows
    rescued k = rw (dispatch_rows, h, d, k)

    pub queued_twice :
        (f : DispatchError E)
        → (enqueue_rescue json services row (enqueue json services row s).0).1 ≡ some f
        → is_duplicate f ≡ true
        → dispatch_rows (row ∷ rest) stats s
          ≡ dispatch_rows rest
              (record stats { duplicates = suc stats.duplicates })
              (enqueue_rescue json services row (enqueue json services row s).0).0
    unfolding dispatch_rows
    queued_twice f k g = rw (dispatch_rows, h, d, k, g)

    pub rescue_failed :
        (f : DispatchError E)
        → (enqueue_rescue json services row (enqueue json services row s).0).1 ≡ some f
        → is_duplicate f ≡ false
        → dispatch_rows (row ∷ rest) stats s ≡ (
          (enqueue_rescue json services row (enqueue json services row s).0).0,
          record stats { duplicates = suc stats.duplicates },
          some f,
        )
    unfolding dispatch_rows
    rescue_failed f k g = rw (dispatch_rows, h, d, k, g)
