-- ===== src/Swarm/Rate/Tests.antt =====
-- A run of the rate schedule.
use triptorrent.Base.{ℕ, ◌*◌, ◌≤◌, ◌≡◌, refl, List, [], ◌∷◌, arith}
use triptorrent.Swarm.Rate.{new, reserve, service_ns, nanos_per_second}
use triptorrent.Swarm.Rate.Bound.{run, total-le}

abbrev requests : List (ℕ × ℕ)
requests = (0, 500) ∷ (0, 250) ∷ []

schedule : (run (new 1000) requests).next_available_ns ≡ 750_000_000
unfolding new reserve service_ns
schedule = refl

second_wait : (reserve (run (new 1000) ((0, 500) ∷ [])) 0 250).0 ≡ 500_000_000
unfolding new reserve service_ns
second_wait = refl

total-le_example : 750 * nanos_per_second ≤ 1000 * (run (new 1000) requests).next_available_ns
total-le_example =
    total-le 1000 requests (omega arith) (omega arith, (omega arith, tt))
      (rw schedule (omega arith))
