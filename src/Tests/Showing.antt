-- ===== src/Tests/Showing.antt =====
-- The entities at concrete data.
use Prim.Native.String.{String}
use danalock_ble_ha_integrat.Prelude.{
  ℕ, suc, true, false, none, some, [], ◌∷◌, ◌≡◌, refl, ◌≢◌, ◌⊎◌, string_eq,
}
use danalock_ble_ha_integrat.Prelude.Dict.{lookup}
use danalock_ble_ha_integrat.Prelude.Errors.{ok, raised, cancelled, cloud_error, lock_control_error}
use danalock_ble_ha_integrat.Pydanalock.{Version}
use danalock_ble_ha_integrat.DeviceState.{counter_increased}
use danalock_ble_ha_integrat.Broadcast.{accept_device}
use danalock_ble_ha_integrat.Outside.{Runtime, External}
use danalock_ble_ha_integrat.KeyManager.{close, key}
use danalock_ble_ha_integrat.Control
use danalock_ble_ha_integrat.Control.{lock, refresh_failed_message, device_information}
use danalock_ble_ha_integrat.Control.Retry.{operate_not_refreshed}
use danalock_ble_ha_integrat.LockEntity.{LockEntity, operate, is_locked}
use danalock_ble_ha_integrat.LockEntity.Optimism.{
  operate_succeeds, operate_fails, operate_cancelled, is_locked_after,
}
use danalock_ble_ha_integrat.Version.{version_tuple, version_is_newer, versions_equal}
use danalock_ble_ha_integrat.Version.Order.{Compared, version_is_newer_trans, versions-Compared}
use danalock_ble_ha_integrat.Firmware.{
  LatestFirmware, Entity, firmware_poll_interval, firmware_retry_interval, refresh,
}
use danalock_ble_ha_integrat.Firmware.Probe.{
  refresh_equal, refresh_unreachable, refresh_differs, OfRead,
}
use danalock_ble_ha_integrat.Tests.Samples.{
  old_key, outside, offline, cancelling, runtime, valid_runtime, report, next_report, advert, seen,
  seen_state, monitor, information,
}

abbrev entity : Runtime ℕ → LockEntity ℕ
entity r = record {
  runtime = r;
  serial = "bb";
  entity_id = "lock.danalock_ble_bb_lock";
  has_control = true;
  is_locking = false;
  is_unlocking = false;
  written = [];
}

operate_succeeds_example :
    let (r, t) = operate outside false (entity valid_runtime) in
    (r ≡ ok tt)
    × (t.is_locking ≡ false)
    × (t.is_unlocking ≡ false)
    × (t.written
        ≡ record { locking = false; unlocking = false; locked = some false }
          ∷ record { locking = false; unlocking = true; locked = is_locked seen_state }
          ∷ [])
    × (lookup "bb" t.runtime.monitor.devices
        ≡ some (record seen { state = record seen_state { pending_locked = some false } }))
unfolding lookup string_eq Control.operate Control.refresh_if_expired Control.attempt
    Control.call_facade key close
operate_succeeds_example = operate_succeeds outside false (entity valid_runtime) seen refl refl refl

is_locked_after_test :
    let s = (accept_device (some 0) 2000 next_report advert seen).state in
    (counter_increased 65535 1 ≡ false → is_locked s ≡ some true)
    × (counter_increased 65535 1 ≡ true → is_locked s ≡ some true)
is_locked_after_test = is_locked_after (some 0) 2000 next_report report advert seen true refl refl

operate_cancelled_example :
    let (r, t) = operate cancelling true (entity valid_runtime) in
    (r ≡ raised cancelled)
    × (t.is_locking ≡ true)
    × (t.is_unlocking ≡ false)
    × (t.written ≡ record { locking = true; unlocking = false; locked = is_locked seen_state } ∷ [])
unfolding lookup string_eq Control.operate Control.refresh_if_expired Control.attempt
    Control.call_facade key close Control.on_attempt_error Control.map_transport
operate_cancelled_example =
    operate_cancelled cancelling true (entity valid_runtime) seen refl refl refl

operate_fails_test :
    let (r, t) = operate offline true (entity runtime) in
    (r ≡ raised (lock_control_error (refresh_failed_message (cloud_error "down"))))
    × (t.is_locking ≡ false)
    × (t.is_unlocking ≡ false)
    × (t.written
        ≡ record { locking = false; unlocking = false; locked = is_locked seen_state }
          ∷ record { locking = true; unlocking = false; locked = is_locked seen_state }
          ∷ [])
    × (t.runtime.monitor ≡ monitor)
unfolding lookup string_eq
operate_fails_test =
    operate_fails offline true (entity runtime) seen refl refl
      (lock_control_error (refresh_failed_message (cloud_error "down")))
      (operate_not_refreshed offline "bb" lock runtime old_key (cloud_error "down") (λ f w. refl)
        refl refl refl refl refl refl).0
      refl

version_tests :
    (version_is_newer "1.10.0" "1.9.0" ≡ true)
    × (version_is_newer "1.9" "1.8" ≡ false)
    × (versions_equal (some "01.2.3") (some "1.2.3") ≡ true)
    × (version_tuple " 1.+2.3_0" ≢ none)
unfolding version_is_newer version_tuple versions_equal
version_tests = (refl, refl, refl, cc)

version_is_newer_trans_test : version_is_newer "2.0.0" "1.9.9" ≡ true
unfolding version_is_newer version_tuple
version_is_newer_trans_test = version_is_newer_trans "2.0.0" "1.10.0" "1.9.9" refl refl

versions-Compared_example :
    (version_tuple "2.0.0" ≢ none
      → version_tuple "2.0" ≢ none
      → Compared
          (version_is_newer "2.0.0" "2.0")
          (version_is_newer "2.0" "2.0.0")
          (versions_equal (some "2.0.0") (some "2.0")))
    × ((version_tuple "2.0.0" ≡ none) ⊎ (version_tuple "2.0" ≡ none)
        → (version_is_newer "2.0.0" "2.0" ≡ false)
          × (version_is_newer "2.0" "2.0.0" ≡ false)
          × (versions_equal (some "2.0.0") (some "2.0") ≡ false))
versions-Compared_example = versions-Compared "2.0.0" "2.0"

abbrev latest_firmware : String → External ℕ LatestFirmware
latest_firmware serial w =
    (ok (record { version = "1.2.3"; maturity = none; firmware_identifier = none }), suc w)

abbrev unreachable : String → External ℕ LatestFirmware
unreachable serial w = (raised (cloud_error "down"), suc w)

abbrev version_dot : Version → String
version_dot v = "1.2.3"

abbrev firmware : String → Entity ℕ
firmware installed = record {
  runtime = valid_runtime;
  serial = "bb";
  values = record {
    installed_version = some installed;
    latest_version = none;
    firmware_identifier = none;
    hardware_version = none;
    maturity = none;
  };
}

refresh_equal_test :
    let (r, t) = refresh outside latest_firmware version_dot (firmware "1.2.3") in
    (r ≡ ok (record { next_delay = firmware_poll_interval; failed = false; error = none }))
    × (t.runtime ≡ record valid_runtime { world = 1 })
    × (t.values.latest_version ≡ some "1.2.3")
    × (t.values.installed_version ≡ some "1.2.3")
    × (t.values.hardware_version ≡ none)
unfolding versions_equal version_tuple
refresh_equal_test =
    refresh_equal outside latest_firmware version_dot (firmware "1.2.3")
      (record { version = "1.2.3"; maturity = none; firmware_identifier = none }) refl refl

refresh-unreachable_test :
    let (r, t) = refresh outside unreachable version_dot (firmware "1.2.3") in
    (r
      ≡ ok (record {
        next_delay = firmware_retry_interval;
        failed = true;
        error = some (cloud_error "down");
      }))
    × (t.values ≡ (firmware "1.2.3").values)
refresh-unreachable_test =
    refresh_unreachable outside unreachable version_dot (firmware "1.2.3") (cloud_error "down") refl
      refl

refresh_differs_example :
    let (r, t) = refresh outside latest_firmware version_dot (firmware "1.2.2") in
    (t.values.latest_version ≡ some "1.2.3")
    × (t.values.maturity ≡ none)
    × OfRead version_dot
        (record { version = "1.2.3"; maturity = none; firmware_identifier = none })
        (ok information)
        r
        (firmware "1.2.2").values
        t.values
unfolding versions_equal version_tuple device_information Control.run_command
    Control.refresh_if_expired key lookup string_eq Control.attempt_call close
    Control.read_information Control.call_facade
refresh_differs_example =
    refresh_differs outside latest_firmware version_dot (firmware "1.2.2")
      (record { version = "1.2.3"; maturity = none; firmware_identifier = none }) refl refl
