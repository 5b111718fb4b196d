-- ===== src/Platforms.antt =====
-- custom_components/danalock_ble/{lock,sensor,binary_sensor,button,select,update}.py:
-- `async_setup_entry`, which adds the entities of an entry.
pub mod Once
pub mod Names
use danalock_ble_ha_integrat.Prelude.{
  String, ◌<>◌, Bool, true, false, Option, none, some, List, [], ◌∷◌, ◌++◌, contains, string_eq,
  if◌then◌else◌,
}
use danalock_ble_ha_integrat.Prelude.Dict.{Dict, keys}
use danalock_ble_ha_integrat.Const.{domain}
use danalock_ble_ha_integrat.Outside.{Runtime}

-- `Platform`, as far as the integration has it.
pub data Platform : Type 0 where
  binary_sensor button lock select sensor update : Platform

-- `PLATFORMS`
abbrev pub platforms : List Platform
platforms = binary_sensor ∷ button ∷ lock ∷ select ∷ sensor ∷ update ∷ []

-- An entity, by the parts of its unique id, `serial` and `suffix`; `has_control` says that it was
-- given a control.
pub record NewEntity : Type 0 where
  pub serial : String
  pub suffix : String
  pub has_control : Bool

-- The value of the `Platform`.
abbrev pub domain_of : Platform → String
domain_of binary_sensor = "binary_sensor"
domain_of button = "button"
domain_of lock = "lock"
domain_of select = "select"
domain_of sensor = "sensor"
domain_of update = "update"

-- `_attr_unique_id`
unfoldable pub unique_id : NewEntity → String
unique_id e = e.serial <> "_" <> e.suffix

-- `entity_id`, with `_entity_id_domain` of the platform; update.py has a format of its own, of the same
-- shape.
unfoldable pub entity_id : Platform → NewEntity → String
entity_id p e = domain_of p <> "." <> domain <> "_" <> e.serial <> "_" <> e.suffix

-- The suffixes of the entities that a platform has for each device.
abbrev pub suffixes : Platform → List String
suffixes binary_sensor =
    "lock_state" ∷ "jammed" ∷ "auto_calibrated" ∷ "point_calibrated" ∷ "twist_assist" ∷ []
suffixes button = "set_point_open" ∷ "set_point_closed" ∷ []
suffixes lock = "lock" ∷ []
suffixes select = "auto_lock" ∷ "brake_and_go_back" ∷ "blocked_to_blocked" ∷ []
suffixes sensor =
    "signal_strength" ∷ "rssi" ∷ "update_counter" ∷ "battery_level" ∷ "key_valid_until" ∷ []
suffixes update = "firmware" ∷ []

-- The entities of one device, `has_control` for each of them.
unfoldable pub of_device : String → Bool → List String → List NewEntity
of_device serial has_control [] = []
of_device serial has_control (suffix ∷ rest) =
    record { serial = serial; suffix = suffix; has_control = has_control }
    ∷ of_device serial has_control rest

-- The loop over the devices, the control by `runtime.controls.get` if the platform has it.
unfoldable pub of_devices : (String → Bool) → List String → List String → List NewEntity
unfolding of_device
of_devices control names [] = []
of_devices control names (serial ∷ rest) =
    of_device serial (control serial) names ++ of_devices control names rest

-- `True` if every serial is a key, where the source takes the values with `[serial]`.
unfoldable pub all_in : List String → List String → Bool
all_in known [] = true
all_in known (serial ∷ rest) =
    let others = all_in known rest in if contains known serial then others else false

unfoldable pub guarded : Bool → List NewEntity → Option (List NewEntity)
guarded true es = some es
guarded false es = none

abbrev pub no_control : String → Bool
no_control serial = false

-- What each platform adds when the runtime data has the monitor; `none` is a KeyError.
module _ {W : Type 0} where
  unfoldable pub binary_sensors : Runtime W → Option (List NewEntity)
  binary_sensors s =
      let states = keys s.monitor.devices in
      some (
        of_devices no_control ("lock_state" ∷ []) states
        ++ (of_devices no_control ("jammed" ∷ "auto_calibrated" ∷ "point_calibrated" ∷ []) states
            ++ of_devices no_control ("twist_assist" ∷ []) states))

  unfoldable pub buttons : Runtime W → Option (List NewEntity)
  buttons s = some (of_devices (contains s.controls) (suffixes button) (keys s.monitor.devices))

  unfoldable pub locks : Runtime W → Option (List NewEntity)
  locks s = some (of_devices (contains s.controls) (suffixes lock) (keys s.monitor.devices))

  unfoldable pub selects : Runtime W → Option (List NewEntity)
  selects s = some (of_devices (contains s.controls) (suffixes select) (keys s.monitor.devices))

  unfoldable pub sensors : Runtime W → Option (List NewEntity)
  unfolding guarded
  sensors s =
      guarded (all_in (keys s.monitor.devices) (keys s.keys))
        (of_devices no_control (suffixes sensor) (keys s.keys))

  unfoldable pub updates : Runtime W → Option (List NewEntity)
  unfolding guarded
  updates s =
      guarded (all_in s.controls (keys s.keys))
        (of_devices (contains s.controls) (suffixes update) (keys s.keys))

  unfoldable pub entities : Platform → Runtime W → Option (List NewEntity)
  unfolding binary_sensors buttons locks selects sensors updates
  entities binary_sensor s = binary_sensors s
  entities button s = buttons s
  entities lock s = locks s
  entities select s = selects s
  entities sensor s = sensors s
  entities update s = updates s

-- `async_setup_entry` of a platform
unfoldable pub setup_platform : {W : Type 0} → Platform → Bool → Runtime W → Option (List NewEntity)
unfolding entities
setup_platform p false s = some []
setup_platform p true s = entities p s
