-- ===== src/Tests/Timing.antt =====
-- The timers, the selects, the signal strength and the login store at concrete data.
use danalock_ble_ha_integrat.Prelude.{
  ℕ, ◌+◌, ◌*◌, ◌/◌, ◌≤◌, ◌<◌, true, false, Option, none, some, [], ◌∷◌, ◌≡◌, refl, ◌≢◌, ◌⊎◌, ◌↔◌,
  arith, string_eq, nat_eq,
}
use danalock_ble_ha_integrat.Prelude.Dict.{lookup}
use danalock_ble_ha_integrat.Prelude.Errors.{ok, raised, cancelled, service_validation_error}
use danalock_ble_ha_integrat.DeviceState.{apply_settings}
use danalock_ble_ha_integrat.Timers.{arm, IsSingle, IsIdle}
use danalock_ble_ha_integrat.Firmware.{CycleOutcome, firmware_poll_interval}
use danalock_ble_ha_integrat.Firmware.Cycles.{
  Schedule, new_schedule, begin_cycle, end_cycle, begin_update,
}
use danalock_ble_ha_integrat.Firmware.Chain
use danalock_ble_ha_integrat.KeyManager.Timer.{
  Background, new_background, start_background, stop_background, end_background, hour,
}
use danalock_ble_ha_integrat.KeyManager.Pace
use danalock_ble_ha_integrat.KeyManager.Pace.{Running, end_background_due, Reach-IsPaced}
use danalock_ble_ha_integrat.Control
use danalock_ble_ha_integrat.KeyManager.{key, close}
use danalock_ble_ha_integrat.Select.{
  SelectEntity, auto_lock, option_for, value_for, select_option, setting_options, write_setting,
}
use danalock_ble_ha_integrat.Select.Labels.{value_for-option_for}
use danalock_ble_ha_integrat.Select.Verified.{select_option_verified, select_option_raises}
use danalock_ble_ha_integrat.Prelude.Int.{◌≤ℤ◌, negsuc}
use danalock_ble_ha_integrat.Sensors.{rssi_to_percent}
use danalock_ble_ha_integrat.Sensors.Signal.{rssi_to_percent_scale}
use danalock_ble_ha_integrat.Storage.{
  TokenData, no_dict, TokenStorage, async_load, save, new_storage,
}
use danalock_ble_ha_integrat.Storage.Reload
use danalock_ble_ha_integrat.Tests.Samples.{
  outside, valid_runtime, lock_settings, seen, seen_state, monitor,
}

abbrev outcome : CycleOutcome
outcome = record { next_delay = firmware_poll_interval; failed = false; error = none }

-- The first cycle has ended, and a check was forced behind it.
abbrev checked : Schedule
checked = (begin_update (end_cycle (ok outcome) (begin_cycle new_schedule).1).1).1

checked_run : Chain.Reach checked
unfolding begin_cycle end_cycle
checked_run =
    Chain.next (Chain.next Chain.added (Chain.ended outcome refl refl)) (Chain.forced refl refl)

abbrev half : ℕ → ℕ
half n = n / 2

abbrev background : Background
background = record new_background { period = 12 * hour; jitter = 6 * hour }

end_background_due_test :
    ((background.period ≡ 0) ⊎ (background.stopped ≡ true))
      × ((end_background half 5 (raised cancelled) background).1 ≡ background)
    ⊎ (time : ℕ) × (0 < background.period)
      × (background.stopped ≡ false)
      × ((end_background half 5 (raised cancelled) background).1
          ≡ record background { slot = arm time background.slot })
      × (5 + background.period ≤ time)
      × (time ≤ 5 + background.period + background.jitter)
end_background_due_test =
    end_background_due half 5 (raised cancelled) background (λ n. ground arith)

abbrev started : Running
started = record { manager = start_background [] half 7; in_flight = false; was_stopped = false }

abbrev halted : Running
halted = record { manager = stop_background started.manager; in_flight = false; was_stopped = true }

Reach-IsPaced_example :
    IsSingle halted.manager.slot
    × (halted.in_flight ≡ true → IsIdle halted.manager.slot)
    × (halted.was_stopped ≡ true → IsIdle halted.manager.slot)
    × (halted.was_stopped ≡ false
        → 0 < halted.manager.period
        → (halted.in_flight ≡ true) ⊎ (halted.manager.slot.handle ≢ none))
Reach-IsPaced_example =
    Reach-IsPaced {s = halted}
      (Pace.next {s = started} (Pace.started [] half 7) (Pace.stopped refl refl refl))

value_for-option_for_example :
    value_for (setting_options auto_lock) "30_s" ≡ some 30
    ↔ option_for (setting_options auto_lock) 30 ≡ some "30_s"
value_for-option_for_example = value_for-option_for auto_lock 30 "30_s"

abbrev select : SelectEntity ℕ
select = record {
  runtime = valid_runtime;
  serial = "bb";
  entity_id = "select.danalock_ble_bb_auto_lock";
  has_control = true;
  setting = auto_lock;
  written = [];
}

select_option_verified_example :
    let (r, t) = select_option outside "30_s" select in
    (r ≡ ok tt)
    × (lookup "bb" t.runtime.monitor.devices
        ≡ some (record seen { state = apply_settings lock_settings seen_state }))
    × (t.written ≡ some "60_s" ∷ [])
unfolding option_for value_for string_eq nat_eq lookup write_setting Control.set_auto_lock
    Control.run_command Control.refresh_if_expired key Control.attempt_call close
    Control.call_facade
select_option_verified_example =
    select_option_verified outside "30_s" select 30 lock_settings seen refl refl refl refl

select_option_raises_test :
    let t = (select_option outside "31_s" select).1 in
    (t.runtime.monitor ≡ monitor) × (t.written ≡ [])
unfolding value_for string_eq select_option
select_option_raises_test =
    select_option_raises outside "31_s" select
      (service_validation_error "31_s is not a valid option for select.danalock_ble_bb_auto_lock")
      refl

rssi_to_percent_scale_example :
    (rssi_to_percent (negsuc 39) ≤ 100)
    × (rssi_to_percent (negsuc 59) ≤ rssi_to_percent (negsuc 39))
    × ((negsuc 29 ≤ℤ negsuc 59) × (rssi_to_percent (negsuc 59) ≡ 100)
        ⊎ (negsuc 59 ≤ℤ negsuc 29)
          × (800 ≤ 14 * rssi_to_percent (negsuc 59) + 7)
          × (14 * rssi_to_percent (negsuc 59) ≤ 800 + 7))
rssi_to_percent_scale_example = rssi_to_percent_scale (negsuc 59) (negsuc 39) (ground arith)

rssi_tests :
    (rssi_to_percent (negsuc 99) ≡ 0)
    × (rssi_to_percent (negsuc 119) ≡ 0)
    × (rssi_to_percent (negsuc 59) ≡ 57)
    × (rssi_to_percent (negsuc 29) ≡ 100)
unfolding rssi_to_percent
rssi_tests = (refl, refl, refl, refl)

-- Values are numbers, and each is its own float.
abbrev itself : ℕ → ℕ
itself x = x

abbrev read_number : ℕ → Option ℕ
read_number x = some x

abbrev token : TokenData ℕ ℕ
token = record { access_token = 1; refresh_token = 2; expires_at = 3 }

abbrev saved_storage : TokenStorage ℕ ℕ
saved_storage =
    save itself read_number token
      (async_load itself read_number (new_storage itself read_number (some no_dict)))
