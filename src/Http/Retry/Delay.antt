-- ===== src/Http/Retry/Delay.antt =====
-- The delay that `retry_delay` of http/retry.rs computes, and the errors that are retried.
use bpm.Prelude.{
  ℕ, ◌*◌, ◌^◌, ◌≤◌, ◌<◌, ◌≡◌, refl, ap, ◌∙◌, ◌||◌, Option, none, some, ltb, min, max, arith, inl,
  inr, Bool-cases,
}
use bpm.Prelude.Decimal.{u64_mod}
use bpm.Prelude.Time.{Duration, from_secs, as_nanos}
use bpm.Http.Retry.{
  NetworkConfig, TransportError, from_error, is_retryable, is_retryable_transport, u32_max,
  pow_or_max, from_nanos, duration_mul, duration_max, duration_min, unwrap_duration, exponent_of,
  retry_delay,
}

abbrev pub nanos_or_zero : Option Duration → ℕ
nanos_or_zero none = 0
nanos_or_zero (some d) = as_nanos d

nanos-from_nanos : (n : ℕ) → as_nanos (from_nanos n) ≡ n
nanos-from_nanos n = omega arith

nanos-max : (a b : Duration) → as_nanos (duration_max a b) ≡ max (as_nanos a) (as_nanos b)
nanos-max a b = elim (Bool-cases (ltb (as_nanos b) (as_nanos a))) [
  | inl e ↦ rw e (ground (arith, e))
  | inr e ↦ rw e (ground (arith, e))
]

nanos-min : (a b : Duration) → as_nanos (duration_min a b) ≡ min (as_nanos a) (as_nanos b)
nanos-min a b = elim (Bool-cases (ltb (as_nanos b) (as_nanos a))) [
  | inl e ↦ rw e (ground (arith, e))
  | inr e ↦ rw e (ground (arith, e))
]

pow_or_max-eq : (b n : ℕ) → pow_or_max b n ≡ min (b ^ n) u32_max
pow_or_max-eq b n = ground arith

nanos-after : (o : Option Duration) → as_nanos (unwrap_duration o (from_secs 0)) ≡ nanos_or_zero o
nanos-after none = omega arith
nanos-after (some d) = refl

-- clamped, a product that overflows makes no difference
nanos-product :
    (d limit : Duration) (n after : ℕ)
    → as_nanos limit < u64_mod * 1_000_000_000
    → min (max (as_nanos (unwrap_duration (duration_mul d n) limit)) after) (as_nanos limit)
      ≡ min (max (as_nanos d * n) after) (as_nanos limit)
unfolding duration_mul
nanos-product d limit n after h =
    elim (Bool-cases (ltb (as_nanos d * n) (u64_mod * 1_000_000_000))) [
      | inl e ↦ rw (e, nanos-from_nanos (as_nanos d * n)) refl
      | inr e ↦ rw e (ground (arith, e))
    ]

-- The delay in nanoseconds is the shortest timeout times the power of the factor (at most the
-- largest `u32`), or the delay that the server asked for where that is longer, but never more than
-- the longest timeout, for a retry number of 32 bits and a longest timeout in range.
pub retry_delay_value :
    (network : NetworkConfig) (retry : ℕ) (retry_after : Option Duration)
    → retry ≤ u32_max
    → as_nanos network.retry_max_timeout < u64_mod * 1_000_000_000
    → as_nanos (retry_delay network retry retry_after)
      ≡ min
          (max
            (as_nanos network.retry_min_timeout * min (network.retry_factor ^ retry) u32_max)
            (nanos_or_zero retry_after))
          (as_nanos network.retry_max_timeout)
unfolding retry_delay
retry_delay_value network retry retry_after small h =
    let limit = network.retry_max_timeout in
    let number : exponent_of retry ≡ retry = ground arith in
    let factor = pow_or_max network.retry_factor (exponent_of retry) in
    let factor_is : factor ≡ min (network.retry_factor ^ retry) u32_max =
      rw number (pow_or_max-eq network.retry_factor retry) in
    let exponential = unwrap_duration (duration_mul network.retry_min_timeout factor) limit in
    let after = unwrap_duration retry_after (from_secs 0) in
    nanos-min (duration_max exponential after) limit
    ∙ ap (λ n. min n (as_nanos limit))
        (nanos-max exponential after ∙ ap (max (as_nanos exponential)) (nanos-after retry_after))
    ∙ nanos-product network.retry_min_timeout limit factor (nanos_or_zero retry_after) h
    ∙ ap
        (λ f.
          min (max (as_nanos network.retry_min_timeout * f) (nanos_or_zero retry_after))
            (as_nanos limit))
        factor_is

-- A transport error is retried exactly when it is a failure to connect or a timeout, whatever else
-- the client says of it.
pub is_retryable_transport-eq :
    (e : TransportError) → is_retryable_transport e ≡ (e.is_connect || e.is_timeout)
unfolding is_retryable_transport from_error is_retryable
is_retryable_transport-eq e = ground arith
