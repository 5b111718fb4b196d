-- ===== src/Firmware.antt =====
-- custom_components/danalock_ble/update.py: `DanalockFirmwareUpdateEntity`, its values and one
-- refresh.
pub mod Probe
pub mod Cycles
pub mod Chain
pub mod Service
pub mod Rounds
pub mod Checked
pub mod Untargeted
use danalock_ble_ha_integrat.Prelude.{
  ℕ, ◌*◌, String, Bool, true, false, Option, none, some, List, [], ◌∷◌, not, string_eq,
  if◌then◌else◌,
}
use danalock_ble_ha_integrat.Prelude.Dict.{Dict, lookup}
use danalock_ble_ha_integrat.Prelude.Errors.{
  Exn, Result, ok, raised, runtime_error, is_cloud_failure, is_exception,
}
use danalock_ble_ha_integrat.Pydanalock.{Version, DeviceInformation}
use danalock_ble_ha_integrat.Version.{versions_equal}
use danalock_ble_ha_integrat.Outside.{Outside, External, Runtime}
use danalock_ble_ha_integrat.Control.{device_information}

-- Times in milliseconds.
abbrev pub firmware_poll_interval : ℕ
firmware_poll_interval = 24 * 3600 * 1000

abbrev pub firmware_retry_interval : ℕ
firmware_retry_interval = 15 * 60 * 1000

-- `_CycleOutcome`
pub record CycleOutcome : Type 0 where
  pub next_delay : ℕ
  pub failed : Bool
  pub error : Option Exn

-- What the cloud answers for the latest firmware.
pub record LatestFirmware : Type 0 where
  pub version : String
  pub maturity : Option String
  pub firmware_identifier : Option String

-- The values that the entity shows.
pub record Values : Type 0 where
  pub installed_version : Option String
  pub latest_version : Option String
  pub firmware_identifier : Option String
  pub hardware_version : Option String
  pub maturity : Option String

-- `attributes.get(name) or None`: an empty text reads as none.
text_or_none : Option String → Option String
text_or_none none = none
text_or_none (some String.[]) = none
text_or_none (some (String.◌∷◌ c s)) = some (String.◌∷◌ c s)

-- `_async_restore`, from the attributes of the last state.
unfoldable pub restore : Option (Dict String String) → Values → Values
unfolding text_or_none
restore none v = v
restore (some attributes) v = record {
  installed_version = text_or_none (lookup "installed_version" attributes);
  latest_version = text_or_none (lookup "latest_version" attributes);
  firmware_identifier = text_or_none (lookup "firmware_identifier" attributes);
  hardware_version = text_or_none (lookup "hardware_version" attributes);
  maturity = text_or_none (lookup "maturity" attributes);
}

present : String → Option String → Dict String String → Dict String String
present name none rest = rest
present name (some value) rest = (name, value) ∷ rest

-- `extra_state_attributes`
unfoldable pub extra_state_attributes : Values → Dict String String
unfolding present
extra_state_attributes v =
    present "firmware_identifier" v.firmware_identifier
      (present "hardware_version" v.hardware_version (present "maturity" v.maturity []))

-- The values of the entity beside the runtime objects that it calls.
pub record Entity (W : Type 0) : Type 0 where
  pub runtime : Runtime W
  pub serial : String
  pub values : Values

-- `latest_firmware` is the call of the cloud client, `version_dot` the library's printer.
module _ (o : Outside) (latest_firmware : String → External o.World LatestFirmware)
    (version_dot : Version → String) where
  -- The values after the lock was read.
  unfoldable pub store_information : DeviceInformation → Values → Values
  store_information info v = record v {
    installed_version = some (version_dot info.firmware_version);
    firmware_identifier = some info.firmware_identifier;
    hardware_version = some (version_dot info.hardware_version);
  }

  -- What `_async_read_lock` makes of the answer of the control. An exception that is no `Exception`
  -- leaves it.
  unfoldable pub stored :
      Result DeviceInformation → Entity o.World → Result (Option Exn) × Entity o.World
  unfolding store_information
  stored (ok info) s = (ok none, record s { values = store_information info s.values })
  stored (raised e) s = if is_exception e then (ok (some e), s) else (raised e, s)

  -- `_async_read_lock`; the result is the caught exception, if there was one.
  unfoldable pub read_lock : Entity o.World → Result (Option Exn) × Entity o.World
  unfolding stored
  read_lock s =
      let (r, rt) = device_information o s.serial s.runtime in stored r (record s { runtime = rt })

  -- The writes behind a successful probe: the lock's own identifier wins.
  unfoldable pub store_latest : LatestFirmware → Values → Values
  store_latest latest v = record v {
    latest_version = some latest.version;
    maturity = latest.maturity;
    firmware_identifier = elim v.firmware_identifier [
      | none ↦ latest.firmware_identifier
      | some identifier ↦ some identifier
    ];
  }

  -- The outcome for the result of `_async_read_lock`.
  unfoldable pub read_outcome :
      Result (Option Exn) × Entity o.World → Result CycleOutcome × Entity o.World
  read_outcome (ok none, s) =
      (ok (record { next_delay = firmware_poll_interval; failed = false; error = none }), s)
  read_outcome (ok (some e), s) =
      (ok (record { next_delay = firmware_poll_interval; failed = true; error = some e }), s)
  read_outcome (raised e, s) = (raised e, s)

  -- `_async_refresh` behind the probe.
  unfoldable pub probed :
      Result LatestFirmware → Entity o.World → Result CycleOutcome × Entity o.World
  unfolding store_latest read_outcome
  probed (ok latest) s =
      let t = record s { values = store_latest latest s.values } in
      if versions_equal t.values.installed_version (some latest.version)
      then (ok (record { next_delay = firmware_poll_interval; failed = false; error = none }), t)
      else read_outcome (read_lock t)
  probed (raised (runtime_error m)) s =
      (ok (record { next_delay = firmware_retry_interval; failed = false; error = none }), s)
  probed (raised e) s =
      if is_cloud_failure e
      then (ok (record { next_delay = firmware_retry_interval; failed = true; error = some e }), s)
      else (raised e, s)

  -- `_async_refresh`
  unfoldable pub refresh : Entity o.World → Result CycleOutcome × Entity o.World
  unfolding probed
  refresh s =
      let (r, w) = latest_firmware s.serial s.runtime.world in
      probed r (record s { runtime = record (s.runtime) { world = w } })
