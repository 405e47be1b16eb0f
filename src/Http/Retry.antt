-- ===== src/Http/Retry.antt =====
-- src/http/retry.rs, and the `NetworkConfig` of src/config.rs: what is retried, and after what delay.
-- An error of `reqwest` is seen through its tests, and `httpdate` is a parameter.
pub mod Delay
mod Tests
use bpm.Prelude.{
  ℕ, zero, suc, ◌+◌, ◌-◌, ◌*◌, ◌^◌, ◌/◌, ◌%◌, Bool, true, false, ◌&&◌, ◌||◌, Option, none, some,
  ltb, leb, ◌==◌, if◌then◌else◌,
}
use bpm.Prelude.Text.{Text, txt}
use bpm.Prelude.Decimal.{parse_u64, u64_mod}
use bpm.Prelude.Time.{Duration, from_secs, as_nanos}

pub record NetworkConfig : Type 0 where
  pub retries : ℕ
  pub retry_factor : ℕ
  pub retry_min_timeout : Duration
  pub retry_max_timeout : Duration
  pub fetch_timeout : Duration

unfoldable pub is_retryable_status : ℕ → Bool
is_retryable_status code = code == 408 || code == 429 || leb 500 code && leb code 599

pub data TransportKind : Type 0 where
  connect timeout builder request body decode redirect other : TransportKind

-- the tests of a `reqwest::Error`
pub record TransportError : Type 0 where
  pub is_connect : Bool
  pub is_timeout : Bool
  pub is_builder : Bool
  pub is_request : Bool
  pub is_body : Bool
  pub is_decode : Bool
  pub is_redirect : Bool

unfoldable pub from_error : TransportError → TransportKind
from_error e =
    if e.is_connect
    then connect
    else if e.is_timeout
    then timeout
    else if e.is_builder
    then builder
    else if e.is_request
    then request
    else if e.is_body
    then body
    else if e.is_decode
    then decode
    else if e.is_redirect
    then redirect
    else other

unfoldable pub is_retryable : TransportKind → Bool
is_retryable connect = true
is_retryable timeout = true
is_retryable k = false

unfoldable pub is_retryable_transport : TransportError → Bool
is_retryable_transport e = is_retryable (from_error e)

abbrev pub kind_name : TransportKind → Text
kind_name connect = txt "connection failed"
kind_name timeout = txt "timeout"
kind_name builder = txt "invalid request"
kind_name request = txt "request failed"
kind_name body = txt "body transfer failed"
kind_name decode = txt "response decode failed"
kind_name redirect = txt "too many redirects"
kind_name other = txt "transport failed"

abbrev pub transport_kind : TransportError → Text
transport_kind e = kind_name (from_error e)

abbrev pub u32_max : ℕ
u32_max = 2 ^ 32 - 1

-- `u32::checked_pow`, and the product of a `Duration` and a `u32`
abbrev pub pow_or_max : ℕ → ℕ → ℕ
pow_or_max b n = if leb (b ^ n) u32_max then b ^ n else u32_max

abbrev pub from_nanos : ℕ → Duration
from_nanos n = record { secs = n / 1_000_000_000; nanos = n % 1_000_000_000 }

-- `Duration::checked_mul`: the seconds must fit a `u64`
unfoldable pub duration_mul : Duration → ℕ → Option Duration
duration_mul d n =
    if ltb (as_nanos d * n) (u64_mod * 1_000_000_000)
    then some (from_nanos (as_nanos d * n))
    else none

abbrev pub duration_max : Duration → Duration → Duration
duration_max a b = if ltb (as_nanos b) (as_nanos a) then a else b

abbrev pub duration_min : Duration → Duration → Duration
duration_min a b = if ltb (as_nanos b) (as_nanos a) then b else a

abbrev pub unwrap_duration : Option Duration → Duration → Duration
unwrap_duration none d = d
unwrap_duration (some a) d = a

-- `u32::try_from(retry).unwrap_or(u32::MAX)`
abbrev pub exponent_of : ℕ → ℕ
exponent_of retry = if leb retry u32_max then retry else u32_max

unfoldable pub retry_delay : NetworkConfig → ℕ → Option Duration → Duration
retry_delay network retry retry_after =
    let factor = pow_or_max network.retry_factor (exponent_of retry) in
    let exponential =
      unwrap_duration (duration_mul network.retry_min_timeout factor) network.retry_max_timeout in
    duration_min (duration_max exponential (unwrap_duration retry_after (from_secs 0)))
      network.retry_max_timeout
