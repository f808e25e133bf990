-- ===== src/Time.antt =====
-- `std::time`: an `Instant` and a `Duration` as nanoseconds.
use hubert_rust.Base.{ℕ, ◌*◌, ◌/◌}

abbrev pub nanos_per_sec : ℕ
nanos_per_sec = 1_000_000_000

-- `Duration::from_secs`, `Duration::from_millis`
abbrev pub from_secs : ℕ → ℕ
from_secs secs = secs * nanos_per_sec

abbrev pub from_millis : ℕ → ℕ
from_millis millis = millis * 1_000_000

-- `Duration::as_secs`
abbrev pub as_secs : ℕ → ℕ
as_secs nanos = nanos / nanos_per_sec
