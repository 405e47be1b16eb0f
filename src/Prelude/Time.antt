-- ===== src/Prelude/Time.antt =====
-- `std::time::Duration`: whole seconds and nanoseconds below one second.
use Prim.Native.Nat.{ℕ, ◌+◌, ◌*◌, ◌/◌}

pub record Duration : Type 0 where
  pub secs : ℕ
  pub nanos : ℕ

abbrev pub from_secs : ℕ → Duration
from_secs seconds = record { secs = seconds; nanos = 0 }

abbrev pub as_millis : Duration → ℕ
as_millis d = d.secs * 1000 + d.nanos / 1_000_000

abbrev pub as_nanos : Duration → ℕ
as_nanos d = d.secs * 1_000_000_000 + d.nanos
