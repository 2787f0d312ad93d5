-- ===== src/Retry/Delays.antt =====
-- How long a retry waits.
use codeintel.Base.{◌≡◌, ◌∙◌, ap, ℕ, ◌+◌, ◌*◌, ◌^◌, ◌<◌, leb, arith, if◌then◌else◌}
use codeintel.Base.Int.{pos}
use codeintel.Retry.{signed64, backoff, add64}

signed64_small : (n : ℕ) → n < 2 ^ 63 → signed64 n ≡ pos n
unfolding signed64
signed64_small n h = ground (arith, h)

add64_small : (a b : ℕ) → a + b < 2 ^ 63 → add64 (pos a) (pos b) ≡ pos (a + b)
unfolding add64 signed64
add64_small a b h = ground (arith, h)

-- While the shifted base fits into an int64, the backoff is the smaller of it and the maximum.
backoff_fits :
    (base limit k : ℕ)
    → base * 2 ^ k < 2 ^ 63
    → backoff base limit k ≡ pos (if leb (base * 2 ^ k) limit then base * 2 ^ k else limit)
unfolding backoff
backoff_fits base limit k h = rw (backoff, signed64_small (base * 2 ^ k) h) (ground arith)

-- While the shifted base fits into an int64, and so does the sum of the base and the maximum, a wait
-- is the doubled base, at most the maximum, and the jitter; so it is shorter than the maximum and the
-- base together.
pub retry_delay :
    (base limit k extra : ℕ)
    → base * 2 ^ k < 2 ^ 63
    → limit + base < 2 ^ 63
    → extra < base
    → let step = if leb (base * 2 ^ k) limit then base * 2 ^ k else limit in
      (add64 (backoff base limit k) (pos extra) ≡ pos (step + extra))
      × (step + extra < limit + base)
retry_delay base limit k extra h sum less = (
  ap (λ z. add64 z (pos extra)) (backoff_fits base limit k h)
      ∙ add64_small (if leb (base * 2 ^ k) limit then base * 2 ^ k else limit) extra
          (ground (arith, sum, less)),
  ground (arith, less),
)
