-- ===== src/Pydanalock.antt =====
-- What the integration reads of the types of its libraries: pydanalock's keys, reports, settings
-- and device information, and Home Assistant's Bluetooth service info. Only the attributes that
-- the integration touches are fields.
use danalock_ble_ha_integrat.Prelude.{ℕ, String, Bool, Option, List}
use danalock_ble_ha_integrat.Prelude.Int.{ℤ}
use danalock_ble_ha_integrat.Prelude.Dict.{Dict}

abbrev pub Bytes : Type 0
Bytes = List ℕ

-- `pydanalock.cloud.DeviceKey`
pub record DeviceKey : Type 0 where
  pub login_blob : Bytes
  pub broadcast_key : Bytes
  pub valid_to : Option ℕ

-- `pydanalock.ble.BroadcastReport`; flags are sets of names.
pub record BroadcastReport : Type 0 where
  pub serial : String
  pub counter : ℕ
  pub locked : Bool
  pub battery_raw : ℕ
  pub lock_flags : List String
  pub device_flags : List String

-- `pydanalock.ble.LockSettings`
pub record LockSettings : Type 0 where
  pub auto_lock_time : ℕ
  pub brake_and_go_back_time : ℕ
  pub end_to_end_mode : ℕ

-- A version as the library reads it from the lock; its `version_dot` turns it into text.
abbrev pub Version : Type 0
Version = List ℕ

-- `pydanalock.ble.DeviceInformation`
pub record DeviceInformation : Type 0 where
  pub firmware_version : Version
  pub firmware_identifier : String
  pub hardware_version : Version

-- `BluetoothServiceInfoBleak`. `id` stands for the identity of the Python object, which `is` tests.
pub record ServiceInfo : Type 0 where
  pub id : ℕ
  pub address : String
  pub rssi : ℤ
  pub manufacturer_data : Dict ℕ Bytes
