-- ===== src/Firmware/Chain.antt =====
-- The firmware cycles as steps: one chain of timers, never stacked and never lost.
use danalock_ble_ha_integrat.Prelude.{ℕ, Bool, true, false, none, ◌≡◌, ◌≢◌, ◌⊎◌, nat_eq}
use danalock_ble_ha_integrat.Prelude.Dict.{lookup}
use danalock_ble_ha_integrat.Prelude.Errors.{Exn, ok, raised}
use danalock_ble_ha_integrat.Timers.{expire, IsSingle, IsIdle}
use danalock_ble_ha_integrat.Firmware.{CycleOutcome}
use danalock_ble_ha_integrat.Firmware.Cycles.{
  Schedule, new_schedule, begin_cycle, end_cycle, begin_update, will_remove,
}

-- What can happen to an added entity, in any order: its timer fires, somebody forces a check, the
-- refresh of the cycle in flight gives an outcome or raises, or Home Assistant removes the entity.
pub data Step (s t : Schedule) : Type 0 where
  fired :
      (timer : ℕ)
      → lookup timer s.slot.live ≢ none
      → t ≡ (begin_cycle (record s { slot = expire timer s.slot })).1
      → Step s t
  forced : s.attached ≡ true → t ≡ (begin_update s).1 → Step s t
  ended :
      (outcome : CycleOutcome) → s.in_flight ≡ true → t ≡ (end_cycle (ok outcome) s).1 → Step s t
  escaped : (e : Exn) → s.in_flight ≡ true → t ≡ (end_cycle (raised e) s).1 → Step s t
  removed : t ≡ record (will_remove s) { attached = false } → Step s t

-- The states that an entity reaches after the first cycle has begun.
pub data Reach : Schedule → Type 0 where
  added : Reach (begin_cycle new_schedule).1
  next : {s t : Schedule} → Reach s → Step s t → Reach t

-- There is a timer that fires, or a cycle in flight will arm it.
pub Continues : Schedule → Type 0
Continues s = (s.in_flight ≡ true) ⊎ (s.slot.handle ≢ none)

abbrev pub escapes : {s t : Schedule} → Step s t → Bool
escapes (fired timer live h) = false
escapes (forced attached h) = false
escapes (ended outcome flying h) = false
escapes (escaped e flying h) = true
escapes (removed h) = false

-- The last step of the run is a refresh that an exception left.
abbrev pub escapes_last : {s : Schedule} → Reach s → Bool
escapes_last added = false
escapes_last (next r st) = escapes st

IsChain : Schedule → Type 0
IsChain s =
    IsSingle s.slot × (s.in_flight ≡ true → IsIdle s.slot) × (s.attached ≡ false → IsIdle s.slot)
