-- ===== src/Broadcast.antt =====
-- custom_components/danalock_ble/broadcast.py: `DanalockBroadcastMonitor`. The monitor keeps its
-- four dicts by serial (states, listeners, notified flags, unavailability flags) with the same keys
-- for its whole life, so one dict of `Device` holds them. A handler runs without yielding, and
-- reads the monotonic clock once.
pub mod Gate
pub mod Availability
pub mod Dispatch
pub mod Deliveries
pub mod Notices
pub mod Reach
use danalock_ble_ha_integrat.Prelude.{
  ℕ, String, Bool, true, false, Option, none, some, List, [], ◌∷◌, ◌++◌, ◌-◌, ltb, eqb, ◌&&◌, ◌||◌,
  not, contains, ◌≡◌, ite, ℕ_discrete, ◌==◌, string_eq, nat_eq, if◌then◌else◌,
}
use danalock_ble_ha_integrat.Prelude.Int.{ℤ}
use danalock_ble_ha_integrat.Prelude.Dict.{Dict, lookup, insert, keys, tabulate, map_values}
use danalock_ble_ha_integrat.Prelude.Errors.{Result, ok, raised, key_error, value_error}
use danalock_ble_ha_integrat.Pydanalock.{Bytes, DeviceKey, BroadcastReport, ServiceInfo}
use danalock_ble_ha_integrat.Const.{broadcast_timeout, manufacturer_id}
use danalock_ble_ha_integrat.DeviceState.{
  DeviceState, new_state, is_fresh, counter_increased, update_setting_values,
}

-- The two info messages of `_sync_availability`.
pub data Transition : Type 0 where
  gone_offline back_online : Transition

-- `logged` has the info messages, the latest first; `scheduled` the listeners that were handed to
-- `call_soon_threadsafe`, the latest first. A listener is known by a number.
pub record Device : Type 0 where
  pub state : DeviceState
  pub listeners : List ℕ
  pub notified : Bool
  pub unavailable : Bool
  pub logged : List Transition
  pub scheduled : List ℕ

pub record Monitor : Type 0 where
  pub devices : Dict String Device
  pub started_at : Option ℕ
  pub callback_registered : Bool
  pub stale_timer : Bool
  pub refresh_timer : Bool
  pub logged_decode_failure : Bool

unfoldable pub new_device : String → Device
unfolding new_state
new_device serial = record {
  state = new_state serial;
  listeners = [];
  notified = false;
  unavailable = false;
  logged = [];
  scheduled = [];
}

-- `__init__`
unfoldable pub new_monitor : Dict String DeviceKey → Monitor
unfolding new_device
new_monitor ks = record {
  devices = tabulate new_device (keys ks);
  started_at = none;
  callback_registered = false;
  stale_timer = false;
  refresh_timer = false;
  logged_decode_failure = false;
}

-- `start`, where `registered` is false if the Bluetooth registration raised RuntimeError.
unfoldable pub start : Bool → ℕ → Monitor → Monitor
start registered now m = record m {
  started_at = if registered then some now else m.started_at;
  callback_registered = registered || m.callback_registered;
  stale_timer = true;
  refresh_timer = true;
}

unfoldable pub stop : Monitor → Monitor
stop m = record m { callback_registered = false; stale_timer = false; refresh_timer = false }

unfoldable pub active : Monitor → Bool
active m = m.callback_registered

prepend : List ℕ → List ℕ → List ℕ
prepend [] tail = tail
prepend (l ∷ ls) tail = prepend ls (l ∷ tail)

-- `_notify`
unfoldable pub notify : Device → Device
unfolding prepend
notify d = record d { scheduled = prepend d.listeners d.scheduled }

-- The early return of `_sync_availability` for a device that was never seen.
within_grace : Option ℕ → ℕ → DeviceState → Bool
within_grace started now s = elim s.last_seen [
  | some seen ↦ false
  | none ↦ elim started [ none ↦ true | some t ↦ ltb (now - t) broadcast_timeout ]
]

-- `_sync_availability`
unfoldable pub sync_availability : Option ℕ → ℕ → Device → Device
unfolding within_grace is_fresh
sync_availability started now d =
    if is_fresh now d.state
    then if d.unavailable
      then record d { unavailable = false; logged = back_online ∷ d.logged }
      else d
    else if d.unavailable || within_grace started now d.state
    then d
    else record d { unavailable = true; logged = gone_offline ∷ d.logged }

rssi_discrete : Discrete (Option ℤ)
rssi_discrete = hlevel ℕ_discrete

-- `state.rssi != info.rssi`
unfoldable pub rssi_changed : DeviceState → ServiceInfo → Bool
unfolding rssi_discrete
rssi_changed s info = ite (rssi_discrete s.rssi (some info.rssi)) false true

-- `state.report is None or _counter_increased(…)`
unfoldable pub report_changed : DeviceState → BroadcastReport → Bool
report_changed s report = elim s.report [
  | none ↦ true
  | some stored ↦ counter_increased stored.counter report.counter
]

-- The block under `if report_changed` in `_accept`.
unfoldable pub store_report : BroadcastReport → DeviceState → DeviceState
unfolding update_setting_values
store_report report s = record (update_setting_values s report) {
  report = some report;
  pending_locked = none;
}

-- The writes of `_accept` that every decoded advertisement makes.
unfoldable pub store_signal : ServiceInfo → ℕ → DeviceState → DeviceState
store_signal info now s = record s {
  rssi = some info.rssi;
  last_seen = some now;
  address = some info.address;
  last_info = some info;
}

-- `_accept` on the device of the serial.
unfoldable pub accept_device : Option ℕ → ℕ → BroadcastReport → ServiceInfo → Device → Device
unfolding notify report_changed store_report store_signal
accept_device started now report info d =
    let changed = report_changed d.state report in
    let must_notify = changed || rssi_changed d.state info || not (is_fresh now d.state) in
    let stored = if changed then store_report report d.state else d.state in
    let synced =
      sync_availability started now (record d { state = store_signal info now stored }) in
    if must_notify then notify (record synced { notified = true }) else synced

-- `_accept`; `none` is the KeyError of a serial that the monitor has no state of.
unfoldable pub accept : String → BroadcastReport → ServiceInfo → ℕ → Monitor → Option Monitor
accept serial report info now m = elim (lookup serial m.devices) [
  | none ↦ none
  | some d ↦ some (record m {
    devices = insert serial (accept_device m.started_at now report info d) m.devices;
  })
]

-- `parse_broadcast` of the library; `none` is a BroadcastError.
abbrev pub Parser : Type 0
Parser = Bytes → Bytes → Option BroadcastReport

module _ (parse_broadcast : Parser) where
  -- The loop of `_handle_advertisement` over the configured keys.
  unfoldable pub try_keys :
      Bytes → ServiceInfo → ℕ → Dict String DeviceKey → Monitor → Option Monitor
  try_keys payload info now [] m = some m
  try_keys payload info now ((serial, key) ∷ ks) m =
      elim (parse_broadcast payload key.broadcast_key) [
        | none ↦ try_keys payload info now ks (record m { logged_decode_failure = true })
        | some report ↦ elim (report.serial == serial) [
          | true ↦ accept serial report info now m
          | false ↦ try_keys payload info now ks m
        ]
      ]

  -- `_handle_advertisement`
  unfoldable pub handle_advertisement :
      Dict String DeviceKey → ServiceInfo → ℕ → Monitor → Option Monitor
  handle_advertisement ks info now m = elim (lookup manufacturer_id info.manufacturer_data) [
    | none ↦ some m
    | some payload ↦ try_keys payload info now ks m
  ]

-- `info is state.last_info`
unfoldable pub is_last : ServiceInfo → DeviceState → Bool
is_last info s = elim s.last_info [ none ↦ false | some last ↦ eqb info.id last.id ]

-- One round of `_refresh_states`, with the history entry of the stored address.
unfoldable pub poll_device : Option ℕ → ℕ → ServiceInfo → Device → Device
unfolding notify is_last
poll_device started now info d =
    if is_last info d.state
    then d
    else let must_notify = rssi_changed d.state info || not (is_fresh now d.state) in
      let synced = sync_availability started now (record d {
        state = record (d.state) {
          last_info = some info;
          rssi = some info.rssi;
          last_seen = some now;
        };
      }) in
      if must_notify then notify synced else synced

-- The guards of a round: an address is known, and the history has an entry for it.
unfoldable pub refresh_device : (String → Option ServiceInfo) → Option ℕ → ℕ → Device → Device
refresh_device history started now d = elim d.state.address [
  | none ↦ d
  | some address ↦ elim (history address) [ none ↦ d | some info ↦ poll_device started now info d ]
]

-- `_refresh_states`, where `history` is `async_last_service_info` of Home Assistant.
unfoldable pub refresh_states : (String → Option ServiceInfo) → ℕ → Monitor → Monitor
refresh_states history now m = record m {
  devices = map_values (λ _. refresh_device history m.started_at now) m.devices;
}

-- One round of `_check_stale`.
unfoldable pub check_stale_device : Option ℕ → ℕ → Device → Device
unfolding notify
check_stale_device started now d =
    let synced = sync_availability started now d in
    if synced.notified && not (is_fresh now synced.state)
    then notify (record synced { notified = false })
    else synced

unfoldable pub check_stale : ℕ → Monitor → Monitor
check_stale now m = record m {
  devices = map_values (λ _. check_stale_device m.started_at now) m.devices;
}

-- `add_listener`; `none` is a KeyError.
unfoldable pub add_listener : String → ℕ → Monitor → Option Monitor
add_listener serial listener m = elim (lookup serial m.devices) [
  | none ↦ none
  | some d ↦ some (record m {
    devices = insert serial (record d { listeners = d.listeners ++ (listener ∷ []) }) m.devices;
  })
]

-- `list.remove`: the first occurrence goes.
unfoldable pub remove_first : ℕ → List ℕ → List ℕ
remove_first l [] = []
remove_first l (x ∷ xs) = if l == x then xs else x ∷ remove_first l xs

-- The `_remove` that `add_listener` returns; a missing list or listener raises.
unfoldable pub remove_listener : String → ℕ → Monitor → Result Monitor
unfolding remove_first
remove_listener serial listener m = elim (lookup serial m.devices) [
  | none ↦ raised (key_error serial)
  | some d ↦
      if contains d.listeners listener
      then ok (record m {
        devices =
            insert serial (record d { listeners = remove_first listener d.listeners }) m.devices;
      })
      else raised (value_error "list.remove(x): x not in list")
]
