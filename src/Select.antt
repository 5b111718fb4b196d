-- ===== src/Select.antt =====
-- custom_components/danalock_ble/select.py: the labels of the presets and
-- `DanalockSettingSelectEntity`.
pub mod Labels
pub mod Verified
pub mod Shared
use danalock_ble_ha_integrat.Prelude.{
  ℕ, String, ◌<>◌, ◌==◌, Bool, true, false, Option, none, some, List, [], ◌∷◌, string_eq, nat_eq,
  if◌then◌else◌,
}
use danalock_ble_ha_integrat.Prelude.Dict.{Dict, lookup, insert}
use danalock_ble_ha_integrat.Prelude.Errors.{
  Exn, Result, ok, raised, home_assistant_error, service_validation_error, is_exception,
}
use danalock_ble_ha_integrat.Pydanalock.{LockSettings}
use danalock_ble_ha_integrat.DeviceState.{DeviceState, settings_known, apply_settings}
use danalock_ble_ha_integrat.Broadcast.{Device, Monitor}
use danalock_ble_ha_integrat.Outside.{Outside, Runtime}
use danalock_ble_ha_integrat.KeyManager.{Handler}
use danalock_ble_ha_integrat.Control.{
  set_auto_lock, set_brake_and_go_back, set_end_to_end, settings,
}

abbrev pub auto_lock_options : Dict ℕ String
auto_lock_options =
    (0, "off")
    ∷ (5, "5_s")
    ∷ (10, "10_s")
    ∷ (15, "15_s")
    ∷ (30, "30_s")
    ∷ (45, "45_s")
    ∷ (60, "60_s")
    ∷ (180, "180_s")
    ∷ (300, "300_s")
    ∷ (600, "600_s")
    ∷ (900, "900_s")
    ∷ []

abbrev pub brake_and_go_back_options : Dict ℕ String
brake_and_go_back_options =
    (0, "off")
    ∷ (3, "3_s")
    ∷ (5, "5_s")
    ∷ (10, "10_s")
    ∷ (15, "15_s")
    ∷ (20, "20_s")
    ∷ (25, "25_s")
    ∷ (30, "30_s")
    ∷ (45, "45_s")
    ∷ (50, "50_s")
    ∷ (60, "60_s")
    ∷ []

abbrev pub blocked_to_blocked_options : Dict ℕ String
blocked_to_blocked_options = (0, "off") ∷ (1, "one") ∷ (2, "two") ∷ []

-- The three settings, which the source names by `SETTING_FLAG_NAMES`.
pub data Setting : Type 0 where
  auto_lock brake_and_go_back blocked_to_blocked : Setting

abbrev pub setting_name : Setting → String
setting_name auto_lock = "auto_lock"
setting_name brake_and_go_back = "brake_and_go_back"
setting_name blocked_to_blocked = "blocked_to_blocked"

-- `SETTING_OPTIONS`
abbrev pub setting_options : Setting → Dict ℕ String
setting_options auto_lock = auto_lock_options
setting_options brake_and_go_back = brake_and_go_back_options
setting_options blocked_to_blocked = blocked_to_blocked_options

-- `_option_for`: the label of the first preset that is the value.
unfoldable pub option_for : Dict ℕ String → ℕ → Option String
option_for [] value = none
option_for ((preset, option) ∷ rest) value =
    let later = option_for rest value in if preset == value then some option else later

-- `_value_for`, without the text of its error.
unfoldable pub value_for : Dict ℕ String → String → Option ℕ
value_for [] option = none
value_for ((value, candidate) ∷ rest) option =
    let later = value_for rest option in if candidate == option then some value else later

option_of : Setting → Option (Option ℕ) → Option String
option_of setting (some (some value)) = option_for (setting_options setting) value
option_of setting _ = none

-- `current_option`
unfoldable pub current_option : Setting → DeviceState → Option String
unfolding option_of
current_option setting s = option_of setting (lookup (setting_name setting) s.setting_values)

-- `written` has the options that were written to Home Assistant, the latest first.
pub record SelectEntity (W : Type 0) : Type 0 where
  pub runtime : Runtime W
  pub serial : String
  pub entity_id : String
  pub has_control : Bool
  pub setting : Setting
  pub written : List (Option String)

shown_option : Setting → Option Device → Option String
shown_option setting none = none
shown_option setting (some d) = current_option setting d.state

-- `async_write_ha_state`
unfoldable pub write_option : {W : Type 0} → SelectEntity W → SelectEntity W
unfolding shown_option
write_option s = record s {
  written = shown_option s.setting (lookup s.serial s.runtime.monitor.devices) ∷ s.written;
}

-- `self._device_state.apply_settings`, on the state in the monitor.
unfoldable pub store_settings : LockSettings → String → Monitor → Monitor
store_settings values serial m = elim (lookup serial m.devices) [
  | none ↦ m
  | some d ↦ record m {
    devices = insert serial (record d { state = apply_settings values d.state }) m.devices;
  }
]

abbrev with_settings : {W : Type 0} → LockSettings → SelectEntity W → SelectEntity W
with_settings values s = record s {
  runtime = record (s.runtime) { monitor = store_settings values s.serial s.runtime.monitor };
}

-- The rest of `async_select_option` behind the awaited write.
unfoldable pub finish_select :
    {W : Type 0} → Result LockSettings → SelectEntity W → Result (Unit {0}) × SelectEntity W
finish_select (ok values) s = (ok tt, write_option (with_settings values s))
finish_select (raised e) s = (raised e, s)

-- `_async_read_settings` behind the awaited read: a failure is no failure of the entity.
unfoldable pub finish_read :
    {W : Type 0} → Result LockSettings → SelectEntity W → Result (Unit {0}) × SelectEntity W
finish_read (ok values) s = (ok tt, write_option (with_settings values s))
finish_read (raised e) s = if is_exception e then (ok tt, write_option s) else (raised e, s)

module _ (o : Outside) where
  -- The call that `SETTING_WRITES` names.
  unfoldable pub write_setting : Setting → String → ℕ → Handler o LockSettings
  write_setting auto_lock serial value = set_auto_lock o serial value
  write_setting brake_and_go_back serial value = set_brake_and_go_back o serial value
  write_setting blocked_to_blocked serial value = set_end_to_end o serial value

  -- `async_select_option`
  unfoldable pub select_option :
      String → SelectEntity o.World → Result (Unit {0}) × SelectEntity o.World
  unfolding finish_select
  select_option option s =
      if s.has_control
      then elim (value_for (setting_options s.setting) option) [
        | none ↦ (
          raised
              (service_validation_error (option <> " is not a valid option for " <> s.entity_id)),
          s,
        )
        | some value ↦
            let (r, rt) = write_setting s.setting s.serial value s.runtime in
            finish_select r (record s { runtime = rt })
      ]
      else (
        raised (
            home_assistant_error (
              "Cannot select " <> option <> " for " <> s.entity_id
              <> ": no key is available for this device")),
        s,
      )

  -- `async_added_to_hass`, where no other select has a read of the device under way; the base class's
  -- listener is left out.
  unfoldable pub select_added : SelectEntity o.World → Result (Unit {0}) × SelectEntity o.World
  unfolding finish_read
  select_added s =
      if s.has_control
      then elim (lookup s.serial s.runtime.monitor.devices) [
        | none ↦ (ok tt, s)
        | some d ↦
            if settings_known d.state
            then (ok tt, s)
            else let (r, rt) = settings o s.serial s.runtime in
              finish_read r (record s { runtime = rt })
      ]
      else (ok tt, s)
