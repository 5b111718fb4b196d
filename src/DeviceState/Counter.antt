-- ===== src/DeviceState/Counter.antt =====
-- The wrap-safe counter test of `_counter_increased`.
use danalock_ble_ha_integrat.Prelude.{ℕ, ◌+◌, ◌%◌, ◌-◌, ◌<◌, ◌≡◌, ◌↔◌, true, false, arith}
use danalock_ble_ha_integrat.DeviceState.{counter_increased}

-- For 16-bit counters the test passes exactly when the new counter is 1 to 32767 steps ahead of the
-- old one, where 0 follows 65535.
pub counter_increased_iff :
    (old new : ℕ)
    → old < 65536
    → new < 65536
    → (counter_increased old new ≡ true)
      ↔ ((k : ℕ) × (0 < k) × (k < 32768) × (new ≡ (old + k) % 65536))
unfolding counter_increased
counter_increased_iff old new ho hn = (
  λ h. ((new + 65536 - old) % 65536, ground arith, ground arith, omega arith),
  λ (k, pos_k, small, e). ground arith,
)

-- Of two 16-bit counters at most one is ahead of the other.
pub counter_increased_asymm :
    (old new : ℕ)
    → old < 65536
    → new < 65536
    → counter_increased old new ≡ true
    → counter_increased new old ≡ false
unfolding counter_increased
counter_increased_asymm old new ho hn h = ground arith
