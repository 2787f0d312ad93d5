-- ===== src/Leases/Locking.antt =====
-- `TryAcquireDispatchLock` and `ReleaseDispatchLock`: one row that lets one pod dispatch at a time.
use codeintel.Base.{
  Bool, true, false, ◌||◌, none, some, ℕ, ltb, is_empty, Text, text_eq, err, Result, if◌then◌else◌,
}
use codeintel.Leases.{Store, LeaseError, missing_holder, Answer, respond}

-- The row can be written: there is none, or its lease ended, or it is the same owner's.
unfoldable pub may_lock : Text → ℕ → Store → Bool
may_lock owner now s = elim s.dispatch_lock [
  | none ↦ true
  | some l ↦ ltb l.expires_at now || text_eq l.owner owner
]

-- `until` is the lease's end as the column, a TIMESTAMP(3), keeps it.
unfoldable pub try_acquire_dispatch_lock :
    Answer → ℕ → Text → ℕ → Store → Store × Result LeaseError Bool
unfolding may_lock respond
try_acquire_dispatch_lock answer now owner until s =
    if is_empty owner
    then (s, err missing_holder)
    else respond answer s
        (if may_lock owner now s
          then record s { dispatch_lock = some (record { owner = owner; expires_at = until }) }
          else s)
        (may_lock owner now s)

unfoldable pub owns_lock : Text → Store → Bool
owns_lock owner s = elim s.dispatch_lock [ none ↦ false | some l ↦ text_eq l.owner owner ]

unfoldable pub release_dispatch_lock : Answer → Text → Store → Store × Result LeaseError (Unit {0})
unfolding owns_lock respond
release_dispatch_lock answer owner s =
    if is_empty owner
    then (s, err missing_holder)
    else respond answer s (if owns_lock owner s then record s { dispatch_lock = none } else s) tt
