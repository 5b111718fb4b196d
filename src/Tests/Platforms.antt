-- ===== src/Tests/Platforms.antt =====
-- The entities of the platforms at concrete data.
use danalock_ble_ha_integrat.Prelude.{
  true, false, some, List, [], ◌∷◌, ◌≡◌, ◌↔◌, refl, string_eq, nat_eq,
}
use danalock_ble_ha_integrat.Prelude.Int.{negsuc}
use danalock_ble_ha_integrat.Platforms.{
  NewEntity, sensor, unique_id, entity_id, lock, select, locks, entities, setup_platform, of_device,
  of_devices,
}
use danalock_ble_ha_integrat.Platforms.Once.{count_id, setup_platform-count}
use danalock_ble_ha_integrat.Platforms.Names.{IsPlain, entity_id-injective}
use danalock_ble_ha_integrat.Sensors.{signal_attributes, raw_signal, available}
use danalock_ble_ha_integrat.Tests.Samples.{runtime, seen_state}

setup_platform-count_test :
    (es : List NewEntity) × (setup_platform select true runtime ≡ some es)
    × (count_id "bb" "brake_and_go_back" es ≡ 1)
unfolding string_eq
setup_platform-count_test = setup_platform-count select "bb" "brake_and_go_back" runtime refl refl

lock_test :
    setup_platform lock true runtime
    ≡ some (record { serial = "bb"; suffix = "lock"; has_control = true } ∷ [])
unfolding setup_platform entities locks of_devices of_device string_eq
lock_test = refl

abbrev signal : NewEntity
signal = record { serial = "c0ffee"; suffix = "signal_strength"; has_control = false }

names_tests :
    (unique_id signal ≡ "c0ffee_signal_strength")
    × (entity_id sensor signal ≡ "sensor.danalock_ble_c0ffee_signal_strength")
unfolding unique_id entity_id
names_tests = (refl, refl)

signal-IsPlain : IsPlain signal.serial
unfolding nat_eq
signal-IsPlain = refl

abbrev jammed : NewEntity
jammed = record { serial = "c0ffee"; suffix = "jammed"; has_control = false }

entity_id-injective_example :
    ((unique_id signal ≡ unique_id jammed)
      ↔ ((signal.serial ≡ jammed.serial) × (signal.suffix ≡ jammed.suffix)))
    × ((entity_id sensor signal ≡ entity_id lock jammed)
        ↔ ((sensor ≡ lock) × (signal.serial ≡ jammed.serial) × (signal.suffix ≡ jammed.suffix)))
entity_id-injective_example =
    entity_id-injective sensor lock signal jammed signal-IsPlain signal-IsPlain

sensor_tests :
    (signal_attributes seen_state ≡ some (("rssi", negsuc 59) ∷ []))
    × (raw_signal seen_state ≡ some (negsuc 59))
    × (available 2000 seen_state ≡ true)
unfolding signal_attributes raw_signal available
sensor_tests = (refl, refl, refl)
