-- ===== src/Tests/Entities.antt =====
-- The entities' listeners, the shared settings read and the check action at concrete data.
use danalock_ble_ha_integrat.Prelude.{
  ℕ, suc, String, true, false, none, some, [], ◌∷◌, ◌≡◌, refl, contains, string_eq, nat_eq,
}
use danalock_ble_ha_integrat.Prelude.Dict.{lookup, insert, AllValues}
use danalock_ble_ha_integrat.Prelude.Errors.{ok, ◌>>◌}
use danalock_ble_ha_integrat.Pydanalock.{Version}
use danalock_ble_ha_integrat.Outside.{External}
use danalock_ble_ha_integrat.KeyManager.{refresh, refresh_normalized, push_key, set_key, close}
use danalock_ble_ha_integrat.Select.Shared.{
  Reads, no_reads, ensure_settings_read, Reach, Step, Reach-one_read,
}
use danalock_ble_ha_integrat.Entities.{Listening, key_added, key_will_remove, key_valid_until}
use danalock_ble_ha_integrat.Entities.Listeners.{key_added-key_will_remove, key_valid_until-refresh}
use danalock_ble_ha_integrat.Version.{versions_equal, version_tuple}
use danalock_ble_ha_integrat.Firmware.{LatestFirmware, Values, probed, store_latest}
use danalock_ble_ha_integrat.Firmware
use danalock_ble_ha_integrat.Firmware.Cycles.{
  new_schedule, begin_cycle, begin_update, end_cycle, end_update,
}
use danalock_ble_ha_integrat.Firmware.Service.{
  FirmwareEntity, firmware, foreign, Fleet, handle, check_each, check_one, check_found,
  check_loaded, put_back, update, run_update, updated,
}
use danalock_ble_ha_integrat.Firmware.Rounds.{Rests, AreRounds}
use danalock_ble_ha_integrat.Firmware.Checked.{AreChecked, handle-AreChecked}
use danalock_ble_ha_integrat.Firmware.Untargeted.{handle-untargeted}
use danalock_ble_ha_integrat.Tests.Samples.{outside, valid_runtime, new_key, seen}

abbrev sensor : Listening ℕ
sensor = record {
  runtime = valid_runtime;
  serial = "bb";
  listener = 9;
  listens = false;
  listens_for_keys = false;
}

key_added-key_will_remove_example : (key_added >> key_will_remove) sensor ≡ (ok tt, sensor)
unfolding lookup string_eq nat_eq
key_added-key_will_remove_example =
    key_added-key_will_remove sensor seen (8 ∷ []) refl refl refl refl

key_valid_until-refresh_example :
    let t = record sensor { listener = 8; runtime = (refresh outside "bb" true valid_runtime).1 } in
    ((key_valid_until t).0 ≡ ok (some 9)) × (contains t.runtime.scheduled 8 ≡ true)
unfolding lookup string_eq nat_eq refresh refresh_normalized push_key set_key close
key_valid_until-refresh_example =
    key_valid_until-refresh outside (record sensor { listener = 8 }) true new_key (8 ∷ []) refl refl
      refl refl

abbrev one_read : Reads
one_read = (ensure_settings_read "bb" no_reads).1

abbrev first_task : ℕ
first_task = 0

Reach-one_read_example : (first_task ≡ 0) × (ensure_settings_read "bb" one_read ≡ (0, one_read))
unfolding ensure_settings_read lookup insert nat_eq string_eq
Reach-one_read_example =
    Reach-one_read 0 0 "bb" (Reach.next Reach.empty (Step.added "bb" refl)) refl refl

abbrev latest : String → External ℕ LatestFirmware
latest serial w =
    (ok (record { version = "1.2.3"; maturity = none; firmware_identifier = none }), suc w)

abbrev version_dot : Version → String
version_dot v = "1.2.3"

abbrev firmware_of : String → FirmwareEntity
firmware_of serial = record {
  serial = serial;
  values = record {
    installed_version = some "1.2.3";
    latest_version = none;
    firmware_identifier = none;
    hardware_version = none;
    maturity = none;
  };
  schedule = new_schedule;
}

abbrev fleet : Fleet ℕ
fleet = record {
  runtime = valid_runtime;
  loaded = true;
  entities =
      ("update.aa", firmware (firmware_of "aa"))
      ∷ ("update.bb", firmware (firmware_of "bb"))
      ∷ ("update.other", foreign)
      ∷ [];
}

checked_test : (handle outside latest version_dot ("update.bb" ∷ []) fleet).0 ≡ ok tt
unfolding handle check_loaded check_each check_one check_found put_back update run_update updated
    begin_update begin_cycle end_cycle end_update Firmware.refresh probed store_latest
    versions_equal version_tuple lookup string_eq
checked_test = refl

handle-AreChecked_example :
    let t = (handle outside latest version_dot ("update.bb" ∷ []) fleet).1 in
    AreRounds outside latest version_dot ("update.bb" ∷ []) fleet t
    × AreChecked t.entities ("update.bb" ∷ [])
    × AllValues Rests t.entities
handle-AreChecked_example =
    handle-AreChecked outside latest version_dot ("update.bb" ∷ []) fleet (refl, (refl, (tt, tt)))
      checked_test

handle-untargeted_test :
    lookup "update.aa"
      (handle outside latest version_dot ("update.bb" ∷ "update.gone" ∷ []) fleet).1.entities
    ≡ some (firmware (firmware_of "aa"))
unfolding lookup string_eq
handle-untargeted_test =
    handle-untargeted outside latest version_dot ("update.bb" ∷ "update.gone" ∷ []) "update.aa"
      fleet refl
