-- ===== src/DeviceState/Settings.antt =====
-- What a report does to the cached setting values, name by name.
use danalock_ble_ha_integrat.Prelude.{
  ℕ, String, Bool, true, false, Option, none, some, List, [], ◌∷◌, ◌≡◌, refl, arith, ◌==◌, contains,
  string_eq, if◌then◌else◌,
}
use danalock_ble_ha_integrat.Prelude.Dict.{lookup, lookup-insert}
use danalock_ble_ha_integrat.Pydanalock.{BroadcastReport}
use danalock_ble_ha_integrat.DeviceState.{
  DeviceState, SettingValues, setting_flag_names, flag_on, update_setting_value, update_names,
  update_setting_values,
}

-- The cached value after a flag went from the first state to the second.
abbrev pub next_value : Bool → Bool → Option (Option ℕ) → Option (Option ℕ)
next_value true false cached = some (some 0)
next_value false true cached = some none
next_value true true cached = cached
next_value false false cached = cached

lookup-update_setting_value :
    (j : String) (previous : Option BroadcastReport) (report : BroadcastReport) (name : String)
    (vs : SettingValues)
    → lookup j (update_setting_value previous report name vs) ≡ (
        if j == name
        then next_value (flag_on previous name) (flag_on (some report) name) (lookup j vs)
        else lookup j vs)
unfolding update_setting_value
lookup-update_setting_value j previous report name vs =
    ground (arith, lookup-insert j name (some 0) vs, lookup-insert j name none vs)

next_value_idem :
    (was is : Bool) (cached : Option (Option ℕ))
    → next_value was is (next_value was is cached) ≡ next_value was is cached
next_value_idem true true cached = refl
next_value_idem true false cached = refl
next_value_idem false true cached = refl
next_value_idem false false cached = refl

lookup-update_names :
    (j : String) (previous : Option BroadcastReport) (report : BroadcastReport)
    (names : List String) (vs : SettingValues)
    → lookup j (update_names previous report names vs) ≡ (
        if contains names j
        then next_value (flag_on previous j) (flag_on (some report) j) (lookup j vs)
        else lookup j vs)
unfolding update_names
lookup-update_names j previous report [] vs = refl
lookup-update_names j previous report (name ∷ names) vs = ground (
  arith,
  lookup-update_names j previous report names (update_setting_value previous report name vs),
  lookup-update_setting_value j previous report name vs,
  next_value_idem (flag_on previous j) (flag_on (some report) j) (lookup j vs),
)

-- A report takes each of the three settings whose flag went off to the value 0, each whose flag
-- came on to unknown, and keeps every other cached value.
pub lookup-update_setting_values :
    (j : String) (s : DeviceState) (report : BroadcastReport)
    → lookup j (update_setting_values s report).setting_values ≡ (
        if contains setting_flag_names j
        then next_value (flag_on s.report j) (flag_on (some report) j) (lookup j s.setting_values)
        else lookup j s.setting_values)
unfolding update_setting_values
lookup-update_setting_values j s report =
    lookup-update_names j s.report report setting_flag_names s.setting_values
