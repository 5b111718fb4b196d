-- ===== src/Tests/Monitoring.antt =====
-- The monitor and the device states at concrete data.
use danalock_ble_ha_integrat.Prelude.{
  ℕ, ◌*◌, ◌+◌, ◌%◌, ◌≤◌, ◌<◌, String, Bool, true, false, none, some, [], ◌∷◌, ◌≡◌, refl, ◌≢◌, ◌↔◌,
  ◌⊎◌, inr, arith, string_eq, nat_eq, contains, if◌then◌else◌,
}
use danalock_ble_ha_integrat.Prelude.Int.{negsuc}
use danalock_ble_ha_integrat.Prelude.Dict.{lookup, insert}
use danalock_ble_ha_integrat.Pydanalock.{Bytes, DeviceKey, BroadcastReport}
use danalock_ble_ha_integrat.Const.{option_refresh_hours, manufacturer_id}
use danalock_ble_ha_integrat.Const.Hours.{option_refresh_hours_legacy}
use danalock_ble_ha_integrat.DeviceState.{
  counter_increased, is_fresh, update_setting_values, setting_flag_names, flag_on,
}
use danalock_ble_ha_integrat.DeviceState.Counter.{counter_increased_iff, counter_increased_asymm}
use danalock_ble_ha_integrat.DeviceState.Settings.{next_value, lookup-update_setting_values}
use danalock_ble_ha_integrat.Broadcast.{
  Device, Monitor, accept, accept_device, try_keys, handle_advertisement, check_stale_device,
  poll_device, notify, is_last, start, new_monitor, new_device, check_stale,
}
use danalock_ble_ha_integrat.Broadcast.Gate.{accept_device_replay, accept_device_advance}
use danalock_ble_ha_integrat.Broadcast.Availability.{IsLogged}
use danalock_ble_ha_integrat.Broadcast.Notices.{
  accept_device_quiet, check_stale_device_once, check_stale_device_after_poll,
}
use danalock_ble_ha_integrat.Broadcast.Dispatch.{
  Holds, handle_advertisement-Delivered, handle_advertisement_first,
}
use danalock_ble_ha_integrat.Broadcast.Reach.{
  Reach, here, next, started, checked, IsSilent, Reach-IsLogged, Reach-IsSilent,
}
use danalock_ble_ha_integrat.Tests.Samples.{
  old_key, new_key, key_dict, report, next_report, advert, parser, seen_state, seen, monitor,
}

option_refresh_hours_legacy_test :
    (60 * option_refresh_hours (("m", 90) ∷ []) "h" 12 "m" ≤ 90)
    × (90 < 60 * (option_refresh_hours (("m", 90) ∷ []) "h" 12 "m" + 1))
unfolding lookup string_eq
option_refresh_hours_legacy_test =
    option_refresh_hours_legacy (("m", 90) ∷ []) "h" "m" 12 90 refl refl

counter_increased_iff_example :
    (counter_increased 65535 1 ≡ true)
    ↔ ((k : ℕ) × (0 < k) × (k < 32768) × (1 ≡ (65535 + k) % 65536))
counter_increased_iff_example = counter_increased_iff 65535 1 (omega arith) (omega arith)

counter_increased_asymm_test : counter_increased 1 65535 ≡ false
unfolding counter_increased
counter_increased_asymm_test = counter_increased_asymm 65535 1 (omega arith) (omega arith) refl

lookup-update_setting_values_test :
    lookup "auto_lock" (update_setting_values seen_state next_report).setting_values ≡ (
      if contains setting_flag_names "auto_lock"
      then next_value
          (flag_on seen_state.report "auto_lock")
          (flag_on (some next_report) "auto_lock")
          (lookup "auto_lock" seen_state.setting_values)
      else lookup "auto_lock" seen_state.setting_values)
lookup-update_setting_values_test = lookup-update_setting_values "auto_lock" seen_state next_report

accept_device_replay_test :
    let s = (accept_device (some 0) 2000 report advert seen).state in
    (s.report ≡ some report)
    × (s.pending_locked ≡ some true)
    × (s.setting_values ≡ seen_state.setting_values)
    × (s.rssi ≡ some (negsuc 59))
    × (s.last_seen ≡ some 2000)
    × (s.address ≡ some "C0:FF:EE")
unfolding counter_increased
accept_device_replay_test = accept_device_replay (some 0) 2000 report report advert seen refl refl

accept_device_advance_test :
    let s = (accept_device (some 0) 2000 next_report advert seen).state in
    (s.report ≡ some next_report)
    × (s.pending_locked ≡ none)
    × (s.setting_values ≡ (update_setting_values seen_state next_report).setting_values)
    × (s.rssi ≡ some (negsuc 59))
    × (s.last_seen ≡ some 2000)
    × (s.address ≡ some "C0:FF:EE")
unfolding counter_increased
accept_device_advance_test =
    accept_device_advance (some 0) 2000 next_report advert seen (inr (report, refl, refl))

accept_device_quiet_test : (accept_device (some 0) 2000 report advert seen).scheduled ≡ []
unfolding counter_increased is_fresh
accept_device_quiet_test =
    accept_device_quiet (some 0) 2000 report report advert seen refl refl refl refl

check_stale_device_once_test :
    ((check_stale_device (some 0) 400000 seen).scheduled ≡ (notify seen).scheduled)
    × ((check_stale_device (some 0) 460000 (check_stale_device (some 0) 400000 seen)).scheduled
        ≡ (check_stale_device (some 0) 400000 seen).scheduled)
check_stale_device_once_test =
    check_stale_device_once (some 0) 400000 460000 seen 1000 refl refl (omega arith) (omega arith)

check_stale_device_after_poll_example :
    let polled = poll_device (some 0) 500000 advert (check_stale_device (some 0) 400000 seen) in
    (is_fresh 500000 polled.state ≡ true)
    × (is_fresh 900000 polled.state ≡ false)
    × ((check_stale_device (some 0) 900000 polled).scheduled ≡ polled.scheduled)
unfolding is_last
check_stale_device_after_poll_example =
    check_stale_device_after_poll (some 0) 400000 500000 900000 advert seen 1000 refl (omega arith)
      refl (omega arith)

delivered : Monitor
delivered = record monitor {
  devices = ("bb", accept_device (some 0) 2000 next_report advert seen) ∷ [];
  logged_decode_failure = true;
}

handle_advertisement-Delivered_example :
    (delivered.devices ≡ monitor.devices)
    ⊎ ((payload : Bytes) × (key : DeviceKey) × (r : BroadcastReport) × (d : Device) × (lookup
            manufacturer_id advert.manufacturer_data
          ≡ some payload)
        × Holds key_dict r.serial key
        × (parser payload key.broadcast_key ≡ some r)
        × (lookup r.serial monitor.devices ≡ some d)
        × (lookup r.serial delivered.devices ≡ some (accept_device (some 0) 2000 r advert d))
        × ((j : String) → j ≢ r.serial → lookup j delivered.devices ≡ lookup j monitor.devices))
unfolding handle_advertisement try_keys accept lookup insert string_eq nat_eq delivered
handle_advertisement-Delivered_example =
    handle_advertisement-Delivered parser key_dict advert 2000 monitor delivered refl

handle_advertisement_first_test :
    (failed : Bool) × (handle_advertisement parser key_dict advert 2000 monitor
      ≡ some (record monitor {
        devices = insert "bb" (accept_device (some 0) 2000 next_report advert seen) monitor.devices;
        logged_decode_failure = failed;
      }))
unfolding lookup string_eq nat_eq
handle_advertisement_first_test =
    handle_advertisement_first parser (("aa", old_key) ∷ []) [] new_key next_report (2 ∷ 9 ∷ [])
      advert 2000 monitor seen refl (λ r h. cc, tt) refl refl

stale_monitor : Monitor
unfolding new_monitor start check_stale
stale_monitor = check_stale 400000 (start true 0 (new_monitor key_dict))

stale_monitor-Reach : Reach parser (new_monitor key_dict) stale_monitor
unfolding stale_monitor start
stale_monitor-Reach = next (next here (started true 0 refl)) (checked 400000 refl refl)

stale_device : Device
unfolding new_device check_stale_device
stale_device = check_stale_device (some 0) 400000 (new_device "aa")

Reach-IsLogged_example : IsLogged stale_device
unfolding stale_monitor stale_device lookup string_eq
Reach-IsLogged_example = Reach-IsLogged parser key_dict stale_monitor "aa" stale_monitor-Reach refl

disabled : Monitor
unfolding new_monitor start
disabled = start false 0 (new_monitor key_dict)

disabled-Reach : Reach parser (new_monitor key_dict) disabled
unfolding disabled start
disabled-Reach = next here (started false 0 refl)

Reach-IsSilent_test : IsSilent (new_device "aa")
unfolding disabled lookup string_eq
Reach-IsSilent_test = Reach-IsSilent parser key_dict disabled "aa" disabled-Reach refl refl
