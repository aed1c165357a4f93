-- ===== src/Relay/Admission.antt =====
-- `try_acquire` and the counter that it guards.
use triptorrent.Base.{ℕ, ◌+◌, Bool, true, false, ltb, if◌then◌else◌}

-- One atomic update: the counter goes up by one while it is below the limit.
unfoldable pub try_acquire : ℕ → ℕ → Bool × ℕ
try_acquire counter limit = if ltb counter limit then (true, counter + 1) else (false, counter)
