-- ===== src/Retry.antt =====
-- internal/backend/connectionmanager/retry.go: retries of a fetcher with exponential backoff. The
-- caller's closure, the context, the timer and the random numbers are functions on a state.
pub mod Attempts
pub mod Delays
mod Tests
use codeintel.Base.{
  Bool, true, false, not, ◌&&◌, ◌||◌, Option, none, some, ℕ, zero, suc, ◌+◌, ◌-◌, ◌*◌, ◌%◌, ◌^◌,
  leb, ltb, is_some, if◌then◌else◌, Text, Result, ok, err,
}
use codeintel.Base.Int.{ℤ, pos, negsuc, pos_part, neg_part, sub_ℕ, ltb_ℤ}

-- Durations are nanoseconds.
pub record RetryConfig : Type 0 where
  pub max_attempts : ℤ
  pub base_delay : ℤ
  pub max_delay : ℤ

abbrev pub default_retry_max_attempts : ℕ
default_retry_max_attempts = 3

abbrev pub default_retry_base_delay : ℕ
default_retry_base_delay = 200000000

abbrev pub default_retry_max_delay : ℕ
default_retry_max_delay = 2000000000

pub record RetryableHttpError : Type 0 where
  pub status_code : ℤ
  pub url : Text
  pub body : Text

-- An error and what it wraps, as `errors.As` and `errors.Is` walk it.
pub data FetchError : Type 0 where
  http_error : RetryableHttpError → FetchError
  net_error : Bool → FetchError
  closed_connection other_error : FetchError
  wrapped : FetchError → FetchError

abbrev pub find_http : FetchError → Option RetryableHttpError
find_http (http_error h) = some h
find_http (wrapped e) = find_http e
find_http _ = none

-- The argument of `net_error` is `Timeout()`.
abbrev pub find_net : FetchError → Option Bool
find_net (net_error timeout) = some timeout
find_net (wrapped e) = find_net e
find_net _ = none

abbrev pub has_closed : FetchError → Bool
has_closed closed_connection = true
has_closed (wrapped e) = has_closed e
has_closed _ = false

unfoldable pub is_retryable : FetchError → Bool
is_retryable e = elim (find_http e) [
  | some h ↦ not (ltb_ℤ h.status_code (pos 500)) && ltb_ℤ h.status_code (pos 600)
  | none ↦ elim (find_net e) [ some timeout ↦ timeout | none ↦ has_closed e ]
]

-- `if x <= 0 { x = default }`
abbrev pub or_default : ℤ → ℕ → ℕ
or_default (pos (suc n)) fallback = suc n
or_default (pos zero) fallback = fallback
or_default (negsuc n) fallback = fallback

-- A number modulo 2^64, as int64.
unfoldable pub signed64 : ℕ → ℤ
signed64 n = let r = n % 2 ^ 64 in if ltb r (2 ^ 63) then pos r else negsuc (2 ^ 64 - r - 1)

-- `base << attempt`, at most the maximum.
unfoldable pub backoff : ℕ → ℕ → ℕ → ℤ
unfolding signed64
backoff base limit attempt =
    let shifted = signed64 (base * 2 ^ attempt) in
    if ltb_ℤ (pos limit) shifted then pos limit else shifted

-- The sum of two int64.
unfoldable pub add64 : ℤ → ℤ → ℤ
unfolding signed64
add64 a b = signed64 (pos_part a + pos_part b + (2 ^ 64 - neg_part a) + (2 ^ 64 - neg_part b))

abbrev pub given : Option FetchError → FetchError → FetchError
given (some last) e = last
given none e = e

pub record Env (S : Type 0) (T : Type 0) : Type 0 where
  pub context_error : S → Option FetchError
  pub fetch : ℕ → S → S × Result FetchError T
  pub jitter : ℕ → S → S × ℕ
  pub wait : ℤ → S → S × Option FetchError

module _ {S T : Type 0} (env : Env S T) (base limit : ℕ) where
  -- The loop: the attempts that are left, the number of the next one, and the last error. With none
  -- left there was an error, since at least one attempt is made.
  unfoldable pub attempts : ℕ → ℕ → Option FetchError → S → S × Result FetchError T
  unfolding is_retryable backoff add64
  attempts zero attempt last s = (s, err (given last other_error))
  attempts (suc left) attempt last s = elim (env.context_error s) [
    | some e ↦ (s, err (given last e))
    | none ↦
        let (s1, result) = env.fetch attempt s in
        elim result [
          | ok v ↦ (s1, ok v)
          | err e ↦ if not (is_retryable e) then (s1, err e) else elim left [
            | zero ↦ (s1, err e)
            | suc more ↦
                let (s2, extra) = env.jitter base s1 in
                let (s3, done) = env.wait (add64 (backoff base limit attempt) (pos extra)) s2 in
                elim done [
                  | some stop ↦ (s3, err stop)
                  | none ↦ attempts left (suc attempt) (some e) s3
                ]
          ]
        ]
  ]

-- `WithRetry`; with the default for zero attempts, the loop runs at least once.
unfoldable pub with_retry : {S T : Type 0} → Env S T → RetryConfig → S → S × Result FetchError T
unfolding attempts
with_retry env cfg s =
    attempts env (or_default cfg.base_delay default_retry_base_delay)
      (or_default cfg.max_delay default_retry_max_delay)
      (or_default cfg.max_attempts default_retry_max_attempts) 0 none s
