-- ===== src/Tests/Latest.antt =====
-- What the lock entity shows after reports, late reports and commands.
use danalock_ble_ha_integrat.Prelude.{true, false, some, List, [], ◌∷◌, ◌≡◌, refl, arith}
use danalock_ble_ha_integrat.Prelude.{none, contains, eqb, ◌%◌, if◌then◌else◌, string_eq, nat_eq}
use danalock_ble_ha_integrat.Broadcast.{Device, Parser, new_device, new_monitor, start}
use danalock_ble_ha_integrat.Broadcast.Deliveries.{delivered, decoded}
use danalock_ble_ha_integrat.Pydanalock.{Bytes, ServiceInfo}
use danalock_ble_ha_integrat.Prelude.Dict.{lookup, insert, keys}
use danalock_ble_ha_integrat.LockEntity.{is_locked}
use danalock_ble_ha_integrat.LockEntity.Register.{
  Event, heard, polled, checked, expected, run, observe, observe_all, AreNear, empty_register,
  locked_by,
}
use danalock_ble_ha_integrat.LockEntity.Monitored.{
  MonitorEvent, advertised, polled_all, checked_all, succeeded, refreshed, keys_after, events_for,
  events_of, handle_events, handle_events_refine,
}
use danalock_ble_ha_integrat.LockEntity.Latest.{report_of, run_refines}
use danalock_ble_ha_integrat.Tests.Samples.{report, next_report, advert, key_dict, new_key}

-- The counter wraps between the first two reports, and the last one comes late.
abbrev device_events : List Event
device_events =
    heard (record { time = 65535; report = report }) advert 10
    ∷ expected false
    ∷ polled (λ serial. some advert) 20
    ∷ heard (record { time = 65537; report = next_report }) advert 30
    ∷ heard (record { time = 65536; report = record report { counter = 0 } }) advert 40
    ∷ checked 50
    ∷ []

device_events-AreNear : AreNear device_events empty_register
unfolding observe
device_events-AreNear = (
  refl,
  (tt, (tt, ((refl, omega arith, omega arith), ((refl, omega arith, omega arith), (tt, tt))))),
)

run_refines_test :
    let d = run (some 0) device_events (new_device "bb") in
    (d.state.report ≡ some next_report) × (is_locked d.state ≡ some true)
unfolding observe observe_all
run_refines_test = run_refines "bb" (some 0) device_events device_events-AreNear

-- The second byte of a payload is the counter; an odd one means locked.
abbrev counting_parser : Parser
counting_parser (p ∷ c ∷ payload) (k ∷ key) =
    if eqb p k then some (record next_report { counter = c; locked = eqb (c % 2) 1 }) else none
counting_parser _ _ = none

abbrev advertisement : Bytes → ServiceInfo
advertisement payload = record advert { manufacturer_data = (456, payload) ∷ [] }

-- The fourth advertisement is encrypted with the key of another lock, the fifth with a new key.
abbrev monitor_events : List MonitorEvent
monitor_events =
    advertised 65534 (advertisement (2 ∷ 65534 ∷ [])) 10
    ∷ succeeded "bb" false
    ∷ succeeded "aa" true
    ∷ advertised 65537 (advertisement (2 ∷ 1 ∷ [])) 20
    ∷ polled_all (λ serial. some advert) 25
    ∷ advertised 65536 (advertisement (2 ∷ 0 ∷ [])) 30
    ∷ advertised 4 (advertisement (1 ∷ 4 ∷ [])) 40
    ∷ refreshed "bb" (record new_key { broadcast_key = 3 ∷ [] })
    ∷ advertised 65538 (advertisement (3 ∷ 2 ∷ [])) 45
    ∷ checked_all 50
    ∷ []

monitor_events-AreNear :
    AreNear (events_of counting_parser "bb" key_dict monitor_events) empty_register
unfolding events_of events_for delivered decoded lookup insert keys_after string_eq nat_eq observe
monitor_events-AreNear = (
  refl,
  (
    tt,
    (
      (refl, omega arith, omega arith),
      (tt, ((refl, omega arith, omega arith), ((refl, omega arith, omega arith), (tt, tt)))),
    ),
  ),
)

monitored_lock : contains (keys key_dict) "bb" ≡ true
unfolding string_eq
monitored_lock = refl

handle_events_refine_example :
    let m =
      handle_events counting_parser key_dict monitor_events (start true 5 (new_monitor key_dict)) in
    let r = observe_all (events_of counting_parser "bb" key_dict monitor_events) empty_register in
    (d : Device) × (lookup "bb" m.devices ≡ some d)
    × (d.state.report ≡ report_of r.latest)
    × (is_locked d.state ≡ locked_by r)
handle_events_refine_example =
    handle_events_refine counting_parser "bb" key_dict true 5 monitor_events monitored_lock
      monitor_events-AreNear
