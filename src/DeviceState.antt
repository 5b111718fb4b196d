-- ===== src/DeviceState.antt =====
-- custom_components/danalock_ble/broadcast.py: `DanalockDeviceState`, the counter test and the
-- transitions of the setting flags.
pub mod Counter
pub mod Settings
use danalock_ble_ha_integrat.Prelude.{
  ℕ, String, Bool, true, false, Option, none, some, List, [], ◌∷◌, ◌+◌, ◌-◌, ◌/◌, ◌%◌, ltb, ◌&&◌,
  not, is_some, contains, string_eq, if◌then◌else◌,
}
use danalock_ble_ha_integrat.Prelude.Int.{ℤ}
use danalock_ble_ha_integrat.Prelude.Dict.{Dict, insert, values, tabulate}
use danalock_ble_ha_integrat.Pydanalock.{BroadcastReport, LockSettings, ServiceInfo}
use danalock_ble_ha_integrat.Const.{broadcast_timeout, counter_modulus}

abbrev pub setting_flag_names : List String
setting_flag_names = "auto_lock" ∷ "brake_and_go_back" ∷ "blocked_to_blocked" ∷ []

-- The configured value of each setting; `none` is a value that is not known.
abbrev pub SettingValues : Type 0
SettingValues = Dict String (Option ℕ)

pub record DeviceState : Type 0 where
  pub serial : String
  pub report : Option BroadcastReport
  pub rssi : Option ℤ
  pub last_seen : Option ℕ
  pub address : Option String
  pub last_info : Option ServiceInfo
  pub pending_locked : Option Bool
  pub setting_values : SettingValues

-- `DanalockDeviceState(serial)`
unfoldable pub new_state : String → DeviceState
new_state serial = record {
  serial = serial;
  report = none;
  rssi = none;
  last_seen = none;
  address = none;
  last_info = none;
  pending_locked = none;
  setting_values = tabulate (λ _. none) setting_flag_names;
}

-- `is_fresh`, at the reading `now` of the monotonic clock.
unfoldable pub is_fresh : ℕ → DeviceState → Bool
is_fresh now s = elim s.last_seen [ none ↦ false | some seen ↦ ltb (now - seen) broadcast_timeout ]

all_known : List (Option ℕ) → Bool
all_known [] = true
all_known (v ∷ vs) = is_some v && all_known vs

unfoldable pub settings_known : DeviceState → Bool
unfolding all_known
settings_known s = all_known (values s.setting_values)

unfoldable pub apply_settings : LockSettings → DeviceState → DeviceState
apply_settings settings s = record s {
  setting_values = insert "blocked_to_blocked" (some settings.end_to_end_mode) (
      insert "brake_and_go_back" (some settings.brake_and_go_back_time)
        (insert "auto_lock" (some settings.auto_lock_time) s.setting_values));
}

-- `_counter_increased`. Python's `%` takes the difference into the range below the modulus.
unfoldable pub counter_increased : ℕ → ℕ → Bool
counter_increased old new =
    let delta = (new + (counter_modulus - old % counter_modulus)) % counter_modulus in
    ltb 0 delta && ltb delta (counter_modulus / 2)

-- `name in report.lock_flags`, where a missing report has no flags.
abbrev pub flag_on : Option BroadcastReport → String → Bool
flag_on none name = false
flag_on (some report) name = contains report.lock_flags name

-- One round of the loop of `_update_setting_values`.
unfoldable pub update_setting_value :
    Option BroadcastReport → BroadcastReport → String → SettingValues → SettingValues
update_setting_value previous report name vs =
    let was_on = flag_on previous name in
    let is_on = flag_on (some report) name in
    if was_on && not is_on
    then insert name (some 0) vs
    else if is_on && not was_on
    then insert name none vs
    else vs

unfoldable pub update_names :
    Option BroadcastReport → BroadcastReport → List String → SettingValues → SettingValues
update_names previous report [] vs = vs
update_names previous report (name ∷ names) vs =
    update_names previous report names (update_setting_value previous report name vs)

-- `_update_setting_values`
unfoldable pub update_setting_values : DeviceState → BroadcastReport → DeviceState
update_setting_values s report = record s {
  setting_values = update_names s.report report setting_flag_names s.setting_values;
}
