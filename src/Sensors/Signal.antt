-- ===== src/Sensors/Signal.antt =====
-- The signal strength in percent.
use danalock_ble_ha_integrat.Prelude.{◌+◌, ◌*◌, ◌≤◌, ◌≡◌, ◌⊎◌, inl, inr, arith, leb, Bool-cases}
use danalock_ble_ha_integrat.Prelude.Int.{ℤ, pos, negsuc, ◌≤ℤ◌}
use danalock_ble_ha_integrat.Sensors.{rssi_to_percent, above_floor}

above_floor_le : (a b : ℤ) → a ≤ℤ b → above_floor a ≤ above_floor b
above_floor_le (pos m) (pos n) h = ground (arith, h)
above_floor_le (pos m) (negsuc n) h = ground (arith, h)
above_floor_le (negsuc m) (pos n) h = ground (arith, h)
above_floor_le (negsuc m) (negsuc n) h = ground (arith, h)

beside_top : (rssi : ℤ) → (negsuc 29 ≤ℤ rssi) ⊎ (rssi ≤ℤ negsuc 29)
beside_top (pos n) = inl (ground arith)
beside_top (negsuc n) = elim (Bool-cases (leb n 29)) [
  | inl high ↦ inl (ground (arith, high))
  | inr low ↦ inr (ground (arith, low))
]

nearest :
    (rssi : ℤ)
    → (above_floor rssi ≤ 70)
    → (20 * above_floor rssi ≤ 14 * rssi_to_percent rssi + 7)
      × (14 * rssi_to_percent rssi ≤ 20 * above_floor rssi + 7)
unfolding rssi_to_percent
nearest rssi low = (ground (arith, low), ground (arith, low))

-- The percentage is at most 100 and does not fall when the signal gets stronger. From -30 dBm on it is
-- 100, and up to there the whole number nearest to ten sevenths of what the signal is above -100; below,
-- the signal counts as -100.
pub rssi_to_percent_scale :
    (a b : ℤ)
    → a ≤ℤ b
    → (rssi_to_percent b ≤ 100)
      × (rssi_to_percent a ≤ rssi_to_percent b)
      × ((negsuc 29 ≤ℤ a) × (rssi_to_percent a ≡ 100)
          ⊎ (a ≤ℤ negsuc 29)
            × (20 * above_floor a ≤ 14 * rssi_to_percent a + 7)
            × (14 * rssi_to_percent a ≤ 20 * above_floor a + 7))
unfolding rssi_to_percent
rssi_to_percent_scale a b h =
    let rises = above_floor_le a b h in
    (
      ground arith,
      ground (arith, rises),
      elim (beside_top a) [
        | inl high ↦
            let above = above_floor_le (negsuc 29) a high in inl (high, ground (arith, above))
        | inr low ↦
            let (above, below) = nearest a (above_floor_le a (negsuc 29) low) in
            inr (low, above, below)
      ],
    )
