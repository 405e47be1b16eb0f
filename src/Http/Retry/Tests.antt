-- ===== src/Http/Retry/Tests.antt =====
-- The defaults of config.rs through http/retry.rs, and the theorems at them.
use bpm.Prelude.{◌≡◌, ◌*◌, ◌^◌, refl, true, false, some, min, max, arith}
use bpm.Prelude.Time.{from_secs, as_nanos}
use bpm.Http.Retry.{
  NetworkConfig, TransportError, retry_delay, duration_mul, is_retryable_status, u32_max,
}
use bpm.Http.Retry.Delay.{nanos_or_zero, retry_delay_value}

abbrev defaults : NetworkConfig
defaults = record {
  retries = 2;
  retry_factor = 10;
  retry_min_timeout = from_secs 10;
  retry_max_timeout = from_secs 60;
  fetch_timeout = from_secs 300;
}

statuses : is_retryable_status 503 ≡ true
unfolding is_retryable_status
statuses = refl

-- a delay of two minutes that the server asks for is cut to the longest timeout
cut_delay : retry_delay defaults 0 (some (from_secs 120)) ≡ from_secs 60
unfolding retry_delay duration_mul
cut_delay = refl

retry_delay_value_example :
    as_nanos (retry_delay defaults 1 (some (from_secs 30)))
    ≡ min
        (max (10_000_000_000 * min (10 ^ 1) u32_max) (nanos_or_zero (some (from_secs 30))))
        60_000_000_000
retry_delay_value_example =
    retry_delay_value defaults 1 (some (from_secs 30)) (omega arith) (omega arith)

abbrev refused : TransportError
refused = record {
  is_connect = true;
  is_timeout = false;
  is_builder = false;
  is_request = true;
  is_body = false;
  is_decode = false;
  is_redirect = false;
}
