-- ===== src/Tests/Samples.antt =====
-- Concrete keys, reports, advertisements and library calls that the tests share.
use danalock_ble_ha_integrat.Prelude.{
  ℕ, suc, String, true, false, none, some, [], ◌∷◌, eqb, if◌then◌else◌,
}
use danalock_ble_ha_integrat.Prelude.Int.{negsuc}
use danalock_ble_ha_integrat.Prelude.Dict.{Dict}
use danalock_ble_ha_integrat.Prelude.Errors.{
  Result, ok, raised, command_error, cloud_error, bleak_error, cancelled,
}
use danalock_ble_ha_integrat.Pydanalock.{
  Bytes, DeviceKey, BroadcastReport, ServiceInfo, LockSettings, DeviceInformation,
}
use danalock_ble_ha_integrat.DeviceState.{DeviceState}
use danalock_ble_ha_integrat.Broadcast.{Device, Monitor, Parser}
use danalock_ble_ha_integrat.Outside.{Outside, Runtime, Facade}

abbrev pub old_key : DeviceKey
old_key = record { login_blob = []; broadcast_key = 1 ∷ []; valid_to = some 5 }

abbrev pub new_key : DeviceKey
new_key = record { login_blob = 7 ∷ []; broadcast_key = 2 ∷ []; valid_to = some 9 }

abbrev pub key_dict : Dict String DeviceKey
key_dict = ("aa", old_key) ∷ ("bb", new_key) ∷ []

abbrev pub report : BroadcastReport
report = record {
  serial = "bb";
  counter = 65535;
  locked = false;
  battery_raw = 80;
  lock_flags = "auto_lock" ∷ [];
  device_flags = [];
}

abbrev pub next_report : BroadcastReport
next_report = record report { counter = 1; locked = true; lock_flags = "blocked_to_blocked" ∷ [] }

abbrev pub advert : ServiceInfo
advert = record {
  id = 3;
  address = "C0:FF:EE";
  rssi = negsuc 59;
  manufacturer_data = (456, 2 ∷ 9 ∷ []) ∷ [];
}

-- A payload that begins with the broadcast key decodes.
abbrev pub parser : Parser
parser (p ∷ payload) (k ∷ key) = if eqb p k then some next_report else none
parser _ _ = none

abbrev pub seen_state : DeviceState
seen_state = record {
  serial = "bb";
  report = some report;
  rssi = some (negsuc 59);
  last_seen = some 1000;
  address = some "C0:FF:EE";
  last_info = some (record advert { id = 2 });
  pending_locked = some true;
  setting_values =
      ("auto_lock", some 30) ∷ ("brake_and_go_back", some 5) ∷ ("blocked_to_blocked", some 0) ∷ [];
}

abbrev pub seen : Device
seen = record {
  state = seen_state;
  listeners = 4 ∷ 5 ∷ [];
  notified = true;
  unavailable = false;
  logged = [];
  scheduled = [];
}

abbrev pub monitor : Monitor
monitor = record {
  devices = ("bb", seen) ∷ [];
  started_at = some 0;
  callback_registered = true;
  stale_timer = true;
  refresh_timer = true;
  logged_decode_failure = false;
}

-- A lock that rejects the empty token, a cloud that gives the new key; the world counts the calls.
abbrev answer : {A : Type 0} → A → Facade → ℕ → Result A × ℕ
answer a f w = elim f.login_token [
  | [] ↦ (raised (command_error "TOKEN_VALIDITY" 0x5e), suc w)
  | c ∷ cs ↦ (ok a, suc w)
]

abbrev pub lock_settings : LockSettings
lock_settings = record { auto_lock_time = 60; brake_and_go_back_time = 5; end_to_end_mode = 1 }

abbrev pub information : DeviceInformation
information = record {
  firmware_version = 1 ∷ 2 ∷ 3 ∷ [];
  firmware_identifier = "dl";
  hardware_version = 1 ∷ [];
}

abbrev pub outside : Outside
outside = record {
  World = ℕ;
  Transport = Unit {0};
  BleDevice = String;
  get_key = λ serial force w. (ok new_key, suc w);
  normalize_serial = λ serial. serial;
  key_expired = λ k w. false;
  ble_device = λ address connectable w. some address;
  ble_connect = λ device w. (ok tt, suc w);
  lock = λ f connect w. answer tt f w;
  unlock = λ f connect w. answer tt f w;
  device_information = λ f connect w. answer information f w;
  settings = λ f connect w. answer lock_settings f w;
  set_auto_lock = λ n f connect w. answer lock_settings f w;
  set_brake_and_go_back = λ n f connect w. answer lock_settings f w;
  set_end_to_end = λ n f connect w. answer lock_settings f w;
  set_calibration_point = λ n f connect w. answer tt f w;
  disconnect = λ f w. (ok tt, suc w);
}

-- The same with a cloud that cannot be reached.
abbrev pub offline : Outside
offline = record outside { get_key = λ serial force w. (raised (cloud_error "down"), suc w) }

-- The same with a disconnect that fails.
abbrev pub stuck : Outside
stuck = record outside { disconnect = λ f w. (raised (bleak_error "gone"), suc w) }

-- The same with a lock whose operations are cancelled.
abbrev pub cancelling : Outside
cancelling = record outside { lock = λ f connect w. (raised cancelled, suc w) }

abbrev tokens_of : String → Bytes
tokens_of serial = []

abbrev pub runtime : Runtime ℕ
runtime = record {
  world = 0;
  keys = ("bb", old_key) ∷ [];
  controls = "bb" ∷ [];
  tokens = tokens_of;
  monitor = monitor;
  key_listeners = ("bb", 8 ∷ []) ∷ [];
  scheduled = [];
  reauths = 0;
  calls = [];
}

-- The control has a token that the lock takes.
abbrev pub valid_runtime : Runtime ℕ
valid_runtime = record runtime { tokens = λ serial. 7 ∷ [] }
