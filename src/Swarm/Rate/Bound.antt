-- ===== src/Swarm/Rate/Bound.antt =====
-- The rate that `RateSchedule` holds to.
use triptorrent.Base.{
  ℕ, ◌+◌, ◌-◌, ◌*◌, ◌^◌, ◌≤◌, ◌<◌, ◌≡◌, refl, List, [], ◌∷◌, ◌||◌, max, ◌==◌, arith, All, ltb,
  ltb→lt, ltb-false→le, Bool-cases, inl, inr,
}
use native.Mathlib.Nat.{mod-lt, div-add-mod, mul-add, mul-le-mul_left}
use triptorrent.Swarm.Rate.{RateSchedule, new, reserve, service_ns, nanos_per_second, saturate_u128}

-- The schedule after a sequence of reservations, each with its time and its bytes.
abbrev pub run : RateSchedule → List (ℕ × ℕ) → RateSchedule
run s [] = s
run s ((now, bytes) ∷ rest) = run (reserve s now bytes).1 rest

abbrev pub total : List (ℕ × ℕ) → ℕ
total [] = 0
total ((now, bytes) ∷ rest) = bytes + total rest

-- The time for which `bytes` occupy the schedule is no shorter than the rate allows.
service_le :
    (bytes rate : ℕ)
    → 0 < rate
    → bytes < 2 ^ 64
    → bytes * nanos_per_second ≤ rate * service_ns bytes rate
unfolding service_ns
service_le bytes rate positive word =
    let n = bytes * nanos_per_second + rate - 1 in
    let small : saturate_u128 (bytes * nanos_per_second) ≡ bytes * nanos_per_second = omega arith in
    rw small (omega (arith, div-add-mod n rate, mod-lt n positive))

-- The greatest instant of the schedule.
abbrev last_instant : ℕ
last_instant = 2 ^ 128 - 1

reserve_rate :
    (s : RateSchedule) (now bytes : ℕ)
    → (reserve s now bytes).1.bytes_per_second ≡ s.bytes_per_second
unfolding reserve
reserve_rate s now bytes = elim (Bool-cases (s.bytes_per_second == 0 || bytes == 0)) [
  | inl idle ↦ rw idle refl
  | inr busy ↦ rw busy refl
]

-- A saturated schedule stays saturated.
reserve_saturated :
    (s : RateSchedule) (now bytes : ℕ)
    → last_instant ≤ s.next_available_ns
    → last_instant ≤ (reserve s now bytes).1.next_available_ns
unfolding reserve
reserve_saturated s now bytes h = elim (Bool-cases (s.bytes_per_second == 0 || bytes == 0)) [
  | inl idle ↦ rw idle h
  | inr busy ↦ rw busy (omega arith)
]

run_saturated :
    (requests : List (ℕ × ℕ)) (s : RateSchedule)
    → last_instant ≤ s.next_available_ns
    → last_instant ≤ (run s requests).next_available_ns
run_saturated [] s h = h
run_saturated ((now, bytes) ∷ rest) s h =
    run_saturated rest (reserve s now bytes).1 (reserve_saturated s now bytes h)

reserve_step :
    (s : RateSchedule) (now bytes : ℕ)
    → 0 < s.bytes_per_second
    → bytes < 2 ^ 64
    → (reserve s now bytes).1.next_available_ns < last_instant
    → s.bytes_per_second * s.next_available_ns + bytes * nanos_per_second
      ≤ s.bytes_per_second * (reserve s now bytes).1.next_available_ns
unfolding reserve
reserve_step s now bytes positive word h =
    elim (Bool-cases (s.bytes_per_second == 0 || bytes == 0)) [
      | inl idle ↦ let none_sent : bytes ≡ 0 = ground arith in rw idle (rw none_sent (omega arith))
      | inr busy ↦
          let rate = s.bytes_per_second in
          let start = max s.next_available_ns now in
          let service = service_ns bytes rate in
          let moved : (reserve s now bytes).1.next_available_ns ≡ saturate_u128 (start + service) =
            rw busy refl in
          let exact : (reserve s now bytes).1.next_available_ns ≡ start + service = omega arith in
          let later =
            mul-le-mul_left rate (let k : s.next_available_ns ≤ start = omega arith in k) in
          rw exact
            (omega (arith, later, mul-add rate start service, service_le bytes rate positive word))
    ]

reserved-le :
    (requests : List (ℕ × ℕ)) (s : RateSchedule)
    → 0 < s.bytes_per_second
    → All (λ r. r.1 < 2 ^ 64) requests
    → (run s requests).next_available_ns < last_instant
    → s.bytes_per_second * s.next_available_ns + total requests * nanos_per_second
      ≤ s.bytes_per_second * (run s requests).next_available_ns
reserved-le [] s positive words h = omega arith
reserved-le ((now, bytes) ∷ rest) s positive words h =
    let s' = (reserve s now bytes).1 in
    let rate = reserve_rate s now bytes in
    let early : s'.next_available_ns < last_instant =
      elim (Bool-cases (ltb s'.next_available_ns last_instant)) [
        | inl before ↦ ltb→lt _ _ before
        | inr saturated ↦
            absurd (omega (arith, h, run_saturated rest s' (ltb-false→le _ _ saturated)))
      ] in
    let step = reserve_step s now bytes positive words.0 early in
    let others = reserved-le rest s' (rw rate positive) words.1 h in
    let others' = rw rate at others in omega (arith, step, others')

-- Whatever the requests and their times, the bytes reserved so far fit, at the configured rate, into
-- the time until the schedule is next available: for a rate that is not zero, byte counts of 64
-- bits, and a schedule that has not saturated.
pub total-le :
    (rate : ℕ) (requests : List (ℕ × ℕ))
    → 0 < rate
    → All (λ r. r.1 < 2 ^ 64) requests
    → (run (new rate) requests).next_available_ns < 2 ^ 128 - 1
    → total requests * nanos_per_second ≤ rate * (run (new rate) requests).next_available_ns
unfolding new
total-le rate requests positive words h =
    omega (arith, reserved-le requests (new rate) positive words h)
