-- ===== src/Retry/Tests.antt =====
-- A fetcher that always times out, and the waits between its calls.
use codeintel.Base.{
  ◌≡◌, refl, true, none, ℕ, suc, ◌+◌, ◌*◌, ◌^◌, ◌≤◌, ◌<◌, leb, if◌then◌else◌, err, arith,
}
use codeintel.Base.Int.{ℤ, pos, negsuc}
use codeintel.Retry.{
  RetryConfig, FetchError, net_error, wrapped, Env, attempts, with_retry, is_retryable, backoff,
  signed64, add64,
}
use codeintel.Retry.Attempts.{with_retry_calls}
use codeintel.Retry.Delays.{retry_delay}

abbrev defaults : RetryConfig
defaults = record { max_attempts = pos 0; base_delay = pos 0; max_delay = pos 0 }

-- The state is the number of calls.
abbrev timing_out : Env ℕ ℕ
timing_out = record {
  context_error = λ _. none;
  fetch = λ _ s. (suc s, err (wrapped (net_error true)));
  jitter = λ _ s. (s, 7);
  wait = λ _ s. (s, none);
}

three_calls : with_retry timing_out defaults 0 ≡ (3, err (wrapped (net_error true)))
unfolding with_retry attempts is_retryable
three_calls = refl

-- At attempt 36 the shift of the default base leaves int64, and the cap does not apply.
backoff_overflow : backoff 200000000 2000000000 36 ≡ negsuc 4702848726509551615
unfolding backoff signed64
backoff_overflow = refl

with_retry_calls_example :
    (((with_retry timing_out defaults 0).0 ≤ 0 + 3))
    × (((t : ℕ) → timing_out.context_error t ≡ none)
        → ((d : ℤ) (t : ℕ) → (timing_out.wait d t).1 ≡ none)
        → (e : FetchError) → (with_retry timing_out defaults 0).1 ≡ err e
        → is_retryable e ≡ true
        → (with_retry timing_out defaults 0).0 ≡ 0 + 3)
with_retry_calls_example =
    with_retry_calls timing_out (λ n. n) (λ _ _. refl) (λ _ _. refl) (λ _ _. refl) defaults 0

fits : 200000000 * 2 ^ 1 < 2 ^ 63
fits = omega arith

sum_fits : 2000000000 + 200000000 < 2 ^ 63
sum_fits = omega arith

short : 7 < 200000000
short = omega arith

retry_delay_example :
    let step = if leb (200000000 * 2 ^ 1) 2000000000 then 200000000 * 2 ^ 1 else 2000000000 in
    (add64 (backoff 200000000 2000000000 1) (pos 7) ≡ pos (step + 7))
    × (step + 7 < 2000000000 + 200000000)
retry_delay_example = retry_delay 200000000 2000000000 1 7 fits sum_fits short
