-- ===== src/LockEntity/Monitored.antt =====
-- The events of a whole monitor, and what becomes of one device among them.
use danalock_ble_ha_integrat.Prelude.{
  ℕ, String, ◌==◌, Bool, true, Option, none, some, List, [], ◌∷◌, ◌++◌, ◌≡◌, refl, arith, inl, inr,
  ap, sym, ◌∙◌, subst, Bool-cases, string_eq, nat_eq, if◌then◌else◌, contains,
}
use danalock_ble_ha_integrat.Prelude.Dict.{
  Dict, lookup, insert, keys, lookup-insert, lookup-map_values, lookup-tabulate,
}
use danalock_ble_ha_integrat.Pydanalock.{DeviceKey, BroadcastReport, ServiceInfo}
use danalock_ble_ha_integrat.Broadcast.{
  Device, Monitor, Parser, new_device, new_monitor, start, handle_advertisement, refresh_device,
  refresh_states, check_stale_device, check_stale,
}
use danalock_ble_ha_integrat.Broadcast.Deliveries.{
  delivered, after_delivery, HasDevice, hear-delivered,
}
use danalock_ble_ha_integrat.LockEntity.{is_locked, set_pending}
use danalock_ble_ha_integrat.LockEntity.Register.{
  Event, heard, polled, checked, expected, apply_event, run, empty_register, observe_all, locked_by,
  AreNear,
}
use danalock_ble_ha_integrat.LockEntity.Latest.{report_of, run_refines}

-- What the monitor handles, in any order: an advertisement of any lock, with the number of the report's
-- state change; a history poll; a stale check; and, beside it, the optimistic state of a command that
-- succeeded on a lock, and a key that the key manager puts into the shared dict.
pub data MonitorEvent : Type 0 where
  advertised : ℕ → ServiceInfo → ℕ → MonitorEvent
  polled_all : (String → Option ServiceInfo) → ℕ → MonitorEvent
  checked_all : ℕ → MonitorEvent
  succeeded : String → Bool → MonitorEvent
  refreshed : String → DeviceKey → MonitorEvent

module _ (parse_broadcast : Parser) (ks : Dict String DeviceKey) where
  -- A KeyError leaves the devices.
  unfoldable pub handle_event : MonitorEvent → Monitor → Monitor
  handle_event (advertised time info now) m =
      elim (handle_advertisement parse_broadcast ks info now m) [ none ↦ m | some after ↦ after ]
  handle_event (polled_all history now) m = refresh_states history now m
  handle_event (checked_all now) m = check_stale now m
  handle_event (succeeded serial locked) m = set_pending locked serial m
  handle_event (refreshed serial key) m = m

  module _ (serial : String) where
    -- What an event is for the device of the serial.
    unfoldable pub events_for : MonitorEvent → List Event
    events_for (advertised time info now) = elim (delivered parse_broadcast ks info) [
      | none ↦ []
      | some report ↦
          if report.serial == serial
          then heard (record { time = time; report = report }) info now ∷ []
          else []
    ]
    events_for (polled_all history now) = polled history now ∷ []
    events_for (checked_all now) = checked now ∷ []
    events_for (succeeded other locked) = if other == serial then expected locked ∷ [] else []
    events_for (refreshed other key) = []

  -- The monitor has the device, and was started then.
  abbrev Has : String → Option ℕ → Device → Monitor → Type 0
  Has serial started d m = (lookup serial m.devices ≡ some d) × (m.started_at ≡ started)

  delivery_run :
      (serial : String) (time : ℕ) (info : ServiceInfo) (now : ℕ) (started : Option ℕ) (d : Device)
      → run started (events_for serial (advertised time info now)) d
        ≡ after_delivery serial started now info (delivered parse_broadcast ks info) d
  unfolding events_for run apply_event
  delivery_run serial time info now started d = go (delivered parse_broadcast ks info)
    where
      go :
          (o : Option BroadcastReport)
          → run started
              (elim o as (λ _. List Event) [
                | none ↦ []
                | some report ↦
                    if report.serial == serial
                    then heard (record { time = time; report = report }) info now ∷ []
                    else []
              ])
              d
            ≡ after_delivery serial started now info o d
      go none = refl
      go (some report) = elim (Bool-cases (report.serial == serial)) [
        | inl same ↦ rw same refl
        | inr differ ↦ rw differ refl
      ]

  HasDevice-Has :
      (serial : String) (m : Monitor) (d t : Device) (o : Option Monitor)
      → lookup serial m.devices ≡ some d
      → HasDevice serial m.started_at d t o
      → Has serial m.started_at t (elim o [ none ↦ m | some after ↦ after ])
  HasDevice-Has serial m d t none found same = (found ∙ ap some same, refl)
  HasDevice-Has serial m d t (some after) found has = has

  abbrev with_pending : Bool → Device → Device
  with_pending locked d = record d { state = record (d.state) { pending_locked = some locked } }

  pending_one :
      (serial other : String) (locked : Bool) (d : Device) (m : Monitor)
      → lookup serial m.devices ≡ some d
      → Has serial m.started_at
          (if other == serial then with_pending locked d else d)
          (set_pending locked other m)
  unfolding set_pending
  pending_one serial other locked d m found = go (lookup other m.devices) refl
    where
      go :
          (o : Option Device)
          → lookup other m.devices ≡ o
          → Has serial m.started_at
              (if other == serial then with_pending locked d else d)
              (elim o as (λ _. Monitor) [
                | none ↦ m
                | some e ↦ record m { devices = insert other (with_pending locked e) m.devices }
              ])
      go none missing = (ground (arith, found, missing), refl)
      go (some e) present = (
        ground
            (arith, found, present, lookup-insert serial other (with_pending locked e) m.devices),
        refl,
      )

  pending_run :
      (serial other : String) (locked : Bool) (started : Option ℕ) (d : Device)
      → run started (events_for serial (succeeded other locked)) d
        ≡ (if other == serial then with_pending locked d else d)
  unfolding events_for run apply_event
  pending_run serial other locked started d = elim (Bool-cases (other == serial)) [
    | inl same ↦ rw same refl
    | inr differ ↦ rw differ refl
  ]

  handle_event-Has :
      (serial : String) (e : MonitorEvent) (d : Device) (m : Monitor)
      → lookup serial m.devices ≡ some d
      → Has serial m.started_at (run m.started_at (events_for serial e) d) (handle_event e m)
  unfolding handle_event events_for run apply_event refresh_states check_stale set_pending
  handle_event-Has serial (advertised time info now) d m found =
      subst (λ t. Has serial m.started_at t (handle_event (advertised time info now) m))
        (sym (delivery_run serial time info now m.started_at d))
        (HasDevice-Has serial m d _ (handle_advertisement parse_broadcast ks info now m) found
          (hear-delivered parse_broadcast ks serial d info now m found))
  handle_event-Has serial (polled_all history now) d m found = (
    lookup-map_values serial (λ _. refresh_device history m.started_at now) m.devices found,
    refl,
  )
  handle_event-Has serial (checked_all now) d m found =
      (lookup-map_values serial (λ _. check_stale_device m.started_at now) m.devices found, refl)
  handle_event-Has serial (succeeded other locked) d m found =
      subst (λ t. Has serial m.started_at t (set_pending locked other m))
        (sym (pending_run serial other locked m.started_at d))
        (pending_one serial other locked d m found)
  handle_event-Has serial (refreshed other key) d m found = (found, refl)

-- The shared dict after an event.
unfoldable pub keys_after : MonitorEvent → Dict String DeviceKey → Dict String DeviceKey
keys_after (refreshed serial key) ks = insert serial key ks
keys_after _ ks = ks

run-append :
    (started : Option ℕ) (xs ys : List Event) (d : Device)
    → run started (xs ++ ys) d ≡ run started ys (run started xs d)
unfolding run
run-append started [] ys d = refl
run-append started (x ∷ xs) ys d = run-append started xs ys (apply_event started x d)

module _ (parse_broadcast : Parser) where
  unfoldable pub handle_events : Dict String DeviceKey → List MonitorEvent → Monitor → Monitor
  handle_events ks [] m = m
  handle_events ks (e ∷ es) m =
      handle_events (keys_after e ks) es (handle_event parse_broadcast ks e m)

  -- The events of the device of a serial.
  unfoldable pub events_of : String → Dict String DeviceKey → List MonitorEvent → List Event
  events_of serial ks [] = []
  events_of serial ks (e ∷ es) =
      events_for parse_broadcast ks serial e ++ events_of serial (keys_after e ks) es

  handle_events-lookup :
      (serial : String) (started : Option ℕ) (ks : Dict String DeviceKey) (es : List MonitorEvent)
      (d : Device) (m : Monitor)
      → lookup serial m.devices ≡ some d
      → m.started_at ≡ started
      → lookup serial (handle_events ks es m).devices
        ≡ some (run started (events_of serial ks es) d)
  unfolding handle_events events_of run
  handle_events-lookup serial started ks [] d m found begun = found
  handle_events-lookup serial started ks (e ∷ es) d m found begun =
      let (stepped, still) = handle_event-Has parse_broadcast ks serial e d m found in
      let at = λ (s : Option ℕ). run s (events_for parse_broadcast ks serial e) d in
      handle_events-lookup serial started (keys_after e ks) es (at started)
        (handle_event parse_broadcast ks e m) (stepped ∙ ap (λ s. some (at s)) begun)
        (still ∙ begun)
      ∙ ap some (
          sym (
            run-append started (events_for parse_broadcast ks serial e)
              (events_of serial (keys_after e ks) es) d))

  -- However advertisements of any locks, history polls, stale checks, succeeded commands and refreshed
  -- keys follow one another after the start of a monitor: if each report of one lock that an
  -- advertisement delivers carries its number modulo 2 ^ 16 and is fewer than 2 ^ 15 state changes away
  -- from the latest one before it, late and repeated reports included, then the lock's device has the
  -- report with the greatest number, and the lock entity shows the state of the last command since that
  -- report, or else of that report, whatever the monitor hears of other locks.
  pub handle_events_refine :
      (serial : String) (ks : Dict String DeviceKey) (registered : Bool) (now : ℕ)
      (es : List MonitorEvent)
      → contains (keys ks) serial ≡ true
      → AreNear (events_of serial ks es) empty_register
      → let m = handle_events ks es (start registered now (new_monitor ks)) in
        let r = observe_all (events_of serial ks es) empty_register in
        (d : Device) × (lookup serial m.devices ≡ some d)
        × (d.state.report ≡ report_of r.latest)
        × (is_locked d.state ≡ locked_by r)
  unfolding start new_monitor
  handle_events_refine serial ks registered now es known near =
      let m = start registered now (new_monitor ks) in
      let found = lookup-tabulate serial new_device (keys ks) ∙ rw known refl in
      let (report, shown) = run_refines serial m.started_at (events_of serial ks es) near in
      (
        run m.started_at (events_of serial ks es) (new_device serial),
        handle_events-lookup serial m.started_at ks es (new_device serial) m found refl,
        report,
        shown,
      )
