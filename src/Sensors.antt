-- ===== src/Sensors.antt =====
-- custom_components/danalock_ble/sensor.py, binary_sensor.py, button.py and entity.py: what the
-- entities show of a device state, when they are available, and the calibration buttons.
pub mod Signal
use danalock_ble_ha_integrat.Prelude.{
  ℕ, ◌+◌, ◌-◌, ◌*◌, ◌/◌, String, ◌<>◌, Bool, true, false, Option, none, some, List, [], ◌∷◌, not,
  ◌&&◌, leb, contains, string_eq, if◌then◌else◌,
}
use danalock_ble_ha_integrat.Prelude.Int.{ℤ, pos, negsuc}
use danalock_ble_ha_integrat.Prelude.Dict.{Dict, lookup}
use danalock_ble_ha_integrat.Prelude.Errors.{Result, ok, raised, home_assistant_error, pure}
use danalock_ble_ha_integrat.DeviceState.{DeviceState, is_fresh}
use danalock_ble_ha_integrat.Outside.{Outside, Runtime}
use danalock_ble_ha_integrat.KeyManager.{Handler}
use danalock_ble_ha_integrat.Control.{calibrate}

-- `max(0, rssi + 100)`
abbrev pub above_floor : ℤ → ℕ
above_floor (pos n) = n + 100
above_floor (negsuc n) = 99 - n

-- `_rssi_to_percent`. The number to round is ten sevenths of a whole number, so it is never half way
-- between two whole numbers, and the rounding is to the nearest.
unfoldable pub rssi_to_percent : ℤ → ℕ
rssi_to_percent rssi = if leb 70 (above_floor rssi) then 100 else (20 * above_floor rssi + 7) / 14

-- `native_value` of the sensors.
unfoldable pub signal_strength : DeviceState → Option ℕ
signal_strength s = elim s.rssi [ none ↦ none | some rssi ↦ some (rssi_to_percent rssi) ]

-- `extra_state_attributes` of the signal quality, and `native_value` of the raw signal.
unfoldable pub signal_attributes : DeviceState → Option (Dict String ℤ)
signal_attributes s = elim s.rssi [ none ↦ none | some rssi ↦ some (("rssi", rssi) ∷ []) ]

unfoldable pub raw_signal : DeviceState → Option ℤ
raw_signal s = s.rssi

unfoldable pub update_counter : DeviceState → Option ℕ
update_counter s = elim s.report [ none ↦ none | some report ↦ some report.counter ]

unfoldable pub battery_level : DeviceState → Option ℕ
battery_level s = elim s.report [ none ↦ none | some report ↦ some report.battery_raw ]

-- `is_on` of the lock state: on is unlocked.
unfoldable pub lock_state : DeviceState → Option Bool
lock_state s = elim s.report [ none ↦ none | some report ↦ some (not report.locked) ]

-- `is_on` of a status flag.
unfoldable pub status : String → DeviceState → Option Bool
status flag_name s = elim s.report [
  | none ↦ none
  | some report ↦ some (contains report.lock_flags flag_name)
]

-- `available` of `DanalockEntity`, which the sensor of the key validity and the firmware entity replace
-- by `True`.
unfoldable pub available : ℕ → DeviceState → Bool
unfolding is_fresh
available now s = is_fresh now s

-- `available` of the calibration buttons: a control and a known address.
unfoldable pub button_available : Bool → DeviceState → Bool
button_available has_control s =
    has_control && (elim s.address [ none ↦ false | some address ↦ true ])

-- `async_press` of the button of a calibration point.
unfoldable pub async_press : (o : Outside) → Bool → String → String → ℕ → Handler o (Unit {0})
async_press o has_control entity_id serial point s =
    if has_control then calibrate o serial point s else (
      raised (
          home_assistant_error
            ("Cannot calibrate " <> entity_id <> ": no key is available for this device")),
      s,
    )
