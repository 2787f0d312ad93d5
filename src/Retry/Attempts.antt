-- ===== src/Retry/Attempts.antt =====
-- How often the fetcher is called.
use codeintel.Base.{
  ◌≡◌, ap, ◌∙◌, inl, inr, true, Option, none, some, ℕ, zero, suc, ◌+◌, ◌≤◌, arith, Bool-cases,
  Option-cases, Result, err, Result-cases, err-injective,
}
use codeintel.Base.Int.{ℤ, pos}
use codeintel.Retry.{
  RetryConfig, FetchError, Env, attempts, with_retry, is_retryable, backoff, add64, or_default,
  default_retry_max_attempts, default_retry_base_delay, default_retry_max_delay,
}

-- A count of the calls of the fetcher: nothing else changes it.
module _ {S T : Type 0} (env : Env S T) (calls : S → ℕ)
    (counted : (k : ℕ) (s : S) → calls (env.fetch k s).0 ≡ suc (calls s))
    (jittered : (n : ℕ) (s : S) → calls (env.jitter n s).0 ≡ calls s)
    (waited : (d : ℤ) (s : S) → calls (env.wait d s).0 ≡ calls s) where
  -- No more calls than attempts; and if nothing interrupts, a failure that could be retried comes
  -- after all of them.
  Bounded : S → ℕ → S × Result FetchError T → Type 0
  Bounded s left out =
      (calls out.0 ≤ calls s + left)
      × (((t : S) → env.context_error t ≡ none)
          → ((d : ℤ) (t : S) → (env.wait d t).1 ≡ none)
          → (e : FetchError) → out.1 ≡ err e
          → is_retryable e ≡ true
          → calls out.0 ≡ calls s + left)

  attempts-Bounded :
      (base limit left k : ℕ) (last : Option FetchError) (s : S)
      → Bounded s left (attempts env base limit left k last s)
  unfolding attempts Bounded
  attempts-Bounded base limit zero k last s = (omega arith, λ _ _ _ _ _. omega arith)
  attempts-Bounded base limit (suc zero) k last s = elim (Option-cases (env.context_error s)) [
    | inr (e, h) ↦ rw (attempts, h) (omega arith, λ free _ _ _ _. cc (free s, h))
    | inl h ↦ elim (Result-cases (env.fetch k s).1) [
      | inl (v, r) ↦ rw (attempts, h, r) (omega (arith, counted k s), λ _ _ _ q _. cc q)
      | inr (e, r) ↦ elim (Bool-cases (is_retryable e)) [
        | inr t ↦
            rw (attempts, h, r, t)
              (
                omega (arith, counted k s),
                λ _ _ f q w. cc (t, ap is_retryable (err-injective q), w),
              )
        | inl t ↦
            rw (attempts, h, r, t)
              (omega (arith, counted k s), λ _ _ _ _ _. omega (arith, counted k s))
      ]
    ]
  ]
  attempts-Bounded base limit (suc (suc left)) k last s =
      let s1 = (env.fetch k s).0 in
      let s2 = (env.jitter base s1).0 in
      let d = add64 (backoff base limit k) (pos (env.jitter base s1).1) in
      let s3 = (env.wait d s2).0 in
      let c3 : calls s3 ≡ suc (calls s) = waited d s2 ∙ jittered base s1 ∙ counted k s in
      elim (Option-cases (env.context_error s)) [
        | inr (e, h) ↦ rw (attempts, h) (omega arith, λ free _ _ _ _. cc (free s, h))
        | inl h ↦ elim (Result-cases (env.fetch k s).1) [
          | inl (v, r) ↦ rw (attempts, h, r) (omega (arith, counted k s), λ _ _ _ q _. cc q)
          | inr (e, r) ↦ elim (Bool-cases (is_retryable e)) [
            | inr t ↦
                rw (attempts, h, r, t)
                  (
                    omega (arith, counted k s),
                    λ _ _ f q w. cc (t, ap is_retryable (err-injective q), w),
                  )
            | inl t ↦ elim (Option-cases (env.wait d s2).1) [
              | inr (stop, w) ↦
                  rw (attempts, h, r, t, w) (omega (arith, c3), λ _ free _ _ _. cc (free d s2, w))
              | inl w ↦
                  let (le, all) = attempts-Bounded base limit (suc left) (suc k) (some e) s3 in
                  rw (attempts, h, r, t, w)
                    (omega (arith, c3, le), λ free on f q v. omega (arith, c3, all free on f q v))
            ]
          ]
        ]
      ]

  -- The fetcher is called no more often than the attempts allow; and if neither the context nor a
  -- wait ends the loop, an error that could be retried is given only after all attempts.
  pub with_retry_calls :
      (cfg : RetryConfig) (s : S)
      → let allowed = or_default cfg.max_attempts default_retry_max_attempts in
        let out = with_retry env cfg s in
        (calls out.0 ≤ calls s + allowed)
        × (((t : S) → env.context_error t ≡ none)
            → ((d : ℤ) (t : S) → (env.wait d t).1 ≡ none)
            → (e : FetchError) → out.1 ≡ err e
            → is_retryable e ≡ true
            → calls out.0 ≡ calls s + allowed)
  unfolding with_retry Bounded
  with_retry_calls cfg s =
      attempts-Bounded (or_default cfg.base_delay default_retry_base_delay)
        (or_default cfg.max_delay default_retry_max_delay)
        (or_default cfg.max_attempts default_retry_max_attempts) 0 none s
