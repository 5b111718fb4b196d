-- ===== src/Outside.antt =====
-- What the runtime objects of a config entry call and do not implement: the cloud client, the lock
-- facade, Bluetooth, and the clock. `World` is all state behind those calls; a call may do anything
-- to it. The shared state of one entry and the record of the outgoing calls follow.
use danalock_ble_ha_integrat.Prelude.{ℕ, String, Bool, Option, List, string_eq}
use danalock_ble_ha_integrat.Prelude.Dict.{Dict}
use danalock_ble_ha_integrat.Prelude.Errors.{Result}
use danalock_ble_ha_integrat.Pydanalock.{Bytes, DeviceKey, LockSettings, DeviceInformation}
use danalock_ble_ha_integrat.Broadcast.{Monitor}

-- A `DanalockLock` object, by the arguments that its constructor got and that differ: the serial
-- (`bytes.fromhex(serial)` in the source) and the login token.
pub record Facade : Type 0 where
  pub serial : String
  pub login_token : Bytes

-- A call of the library that reads and changes the world and may raise.
abbrev pub External : Type 0 → Type 0 → Type 0
External W A = W → Result A × W

pub record Outside : Type 1 where
  pub World : Type 0
  pub Transport : Type 0
  pub BleDevice : Type 0
  -- `AsyncDanalockCloud.get_key(serial, force=…)`
  pub get_key : String → Bool → External World DeviceKey
  pub normalize_serial : String → String
  -- `key_expired(key)`, which reads the clock.
  pub key_expired : DeviceKey → World → Bool
  -- `async_ble_device_from_address(hass, address, connectable=…)`
  pub ble_device : String → Bool → World → Option BleDevice
  -- `BleakClient(device, timeout=…).connect()` and the transport around the client
  pub ble_connect : BleDevice → External World Transport
  -- The facade's operations; each may call the transport factory that it is given.
  pub lock : Facade → External World Transport → External World (Unit {0})
  pub unlock : Facade → External World Transport → External World (Unit {0})
  pub device_information : Facade → External World Transport → External World DeviceInformation
  pub settings : Facade → External World Transport → External World LockSettings
  pub set_auto_lock : ℕ → Facade → External World Transport → External World LockSettings
  pub set_brake_and_go_back : ℕ → Facade → External World Transport → External World LockSettings
  pub set_end_to_end : ℕ → Facade → External World Transport → External World LockSettings
  pub set_calibration_point : ℕ → Facade → External World Transport → External World (Unit {0})
  pub disconnect : Facade → External World (Unit {0})

-- The calls that are counted, with what identifies them.
pub data Call : Type 0 where
  fetched : String → Bool → Call
  attempted : Facade → Call
  disconnected : Facade → Call

-- `keys` is the dict that the key manager, the monitor and the setup share. `controls` are the
-- serials of the key manager's bound controls, and `tokens` gives the login token of the facade
-- that the control of a serial holds now. `reauths` counts `async_start_reauth`; `calls` are the
-- outgoing calls, the latest first; `scheduled` the key listeners that were handed to the loop.
pub record Runtime (W : Type 0) : Type 0 where
  pub world : W
  pub keys : Dict String DeviceKey
  pub controls : List String
  pub tokens : String → Bytes
  pub monitor : Monitor
  pub key_listeners : Dict String (List ℕ)
  pub scheduled : List ℕ
  pub reauths : ℕ
  pub calls : List Call

-- The facade of the control of a serial.
abbrev pub facade : {W : Type 0} → String → Runtime W → Facade
facade serial s = record { serial = serial; login_token = s.tokens serial }
