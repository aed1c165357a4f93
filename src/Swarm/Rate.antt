-- ===== src/Swarm/Rate.antt =====
-- `RateSchedule`: a leaky bucket. A `Duration` is its count of nanoseconds.
pub mod Bound
mod Tests
use triptorrent.Base.{
  ℕ, ◌+◌, ◌-◌, ◌*◌, ◌/◌, ◌^◌, Bool, true, false, ◌||◌, max, min, ◌==◌, if◌then◌else◌,
}

pub record RateSchedule : Type 0 where
  pub bytes_per_second : ℕ
  pub next_available_ns : ℕ

unfoldable pub new : ℕ → RateSchedule
new bytes_per_second = record { bytes_per_second = bytes_per_second; next_available_ns = 0 }

-- Saturation of `u128`, and of `u64` in `duration_from_nanos`.
abbrev pub saturate_u128 : ℕ → ℕ
saturate_u128 n = min n (2 ^ 128 - 1)

abbrev pub duration_from_nanos : ℕ → ℕ
duration_from_nanos n = min n (2 ^ 64 - 1)

abbrev pub nanos_per_second : ℕ
nanos_per_second = 1000000000

-- `div_ceil` on `u128`.
unfoldable pub service_ns : ℕ → ℕ → ℕ
service_ns bytes rate = (saturate_u128 (bytes * nanos_per_second) + rate - 1) / rate

-- `reserve` returns the wait and the new schedule.
unfoldable pub reserve : RateSchedule → ℕ → ℕ → ℕ × RateSchedule
unfolding service_ns
reserve s now bytes =
    if s.bytes_per_second == 0 || bytes == 0
    then (0, s)
    else let start = max s.next_available_ns now in
      (
        duration_from_nanos (start - now),
        record s {
          next_available_ns = saturate_u128 (start + service_ns bytes s.bytes_per_second);
        },
      )
