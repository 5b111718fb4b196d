-- ===== src/Firmware/Cycles.antt =====
-- custom_components/danalock_ble/update.py: the cycle of `DanalockFirmwareUpdateEntity` and its timer.
use danalock_ble_ha_integrat.Prelude.{
  ℕ, ◌+◌, ◌<>◌, String, Bool, true, false, none, not, if◌then◌else◌,
}
use danalock_ble_ha_integrat.Prelude.Errors.{Result, ok, raised, home_assistant_error}
use danalock_ble_ha_integrat.Timers.{Slot, empty_slot, arm, forget, cancel}
use danalock_ble_ha_integrat.Firmware.{CycleOutcome, firmware_poll_interval}

-- `slot` is `_unsub_cycle`, `attached` that `hass` is set, `written` counts the entity writes.
pub record Schedule : Type 0 where
  pub slot : Slot
  pub in_flight : Bool
  pub attached : Bool
  pub written : ℕ

-- An entity that was just added to Home Assistant.
abbrev pub new_schedule : Schedule
new_schedule = record { slot = empty_slot; in_flight = false; attached = true; written = 0 }

-- `_async_cycle` up to the awaited refresh; `true` if it goes on into it, `false` if it returns.
unfoldable pub begin_cycle : Schedule → Bool × Schedule
begin_cycle s =
    let t = record s { slot = forget s.slot } in
    if not s.attached
    then (false, t)
    else if s.in_flight
    then (false, t)
    else (true, record t { in_flight = true })

-- What the early returns of `_async_cycle` give.
abbrev pub declined : CycleOutcome
declined = record { next_delay = firmware_poll_interval; failed = false; error = none }

-- `_async_cycle` behind the awaited refresh, the `finally` included.
unfoldable pub end_cycle : Result CycleOutcome → Schedule → Result CycleOutcome × Schedule
end_cycle (raised e) s = (raised e, record s { in_flight = false })
end_cycle (ok outcome) s =
    if not s.attached
    then (
      ok (record { next_delay = outcome.next_delay; failed = false; error = none }),
      record s { in_flight = false },
    )
    else (
      ok outcome,
      record s { slot = arm outcome.next_delay s.slot; in_flight = false; written = s.written + 1 },
    )

-- `async_update` up to the refresh of its cycle.
unfoldable pub begin_update : Schedule → Bool × Schedule
unfolding begin_cycle
begin_update s = begin_cycle (record s { slot = cancel s.slot })

-- `async_update` behind its cycle.
unfoldable pub end_update : String → Result CycleOutcome → Result (Unit {0})
end_update entity_id (raised e) = raised e
end_update entity_id (ok outcome) =
    if outcome.failed
    then raised (home_assistant_error ("Firmware check failed for " <> entity_id))
    else ok tt

-- `async_will_remove_from_hass`
unfoldable pub will_remove : Schedule → Schedule
will_remove s = record s { slot = cancel s.slot }
