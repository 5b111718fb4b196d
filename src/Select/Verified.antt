-- ===== src/Select/Verified.antt =====
-- What a selection leaves in the device state and shows.
use danalock_ble_ha_integrat.Prelude.{
  ℕ, String, true, some, ◌∷◌, ◌≡◌, refl, ap, ◌∙◌, arith, string_eq, Bool-cases, Option-cases, inl,
  inr,
}
use danalock_ble_ha_integrat.Prelude.Dict.{lookup, lookup-insert, lookup-insert_self}
use danalock_ble_ha_integrat.Prelude.Errors.{Exn, ok, raised, Result-cases}
use danalock_ble_ha_integrat.Pydanalock.{LockSettings}
use danalock_ble_ha_integrat.DeviceState.{DeviceState, apply_settings}
use danalock_ble_ha_integrat.Broadcast.{Device}
use danalock_ble_ha_integrat.Outside.{Outside, Runtime}
use danalock_ble_ha_integrat.Control.{set_auto_lock, set_brake_and_go_back, set_end_to_end}
use danalock_ble_ha_integrat.Control.Frame
use danalock_ble_ha_integrat.Select.{
  Setting, auto_lock, brake_and_go_back, blocked_to_blocked, setting_name, setting_options,
  option_for, value_for, current_option, SelectEntity, write_option, store_settings, finish_select,
  write_setting, select_option,
}

-- The field of the read settings that a setting shows.
abbrev pub verified_value : Setting → LockSettings → ℕ
verified_value auto_lock values = values.auto_lock_time
verified_value brake_and_go_back values = values.brake_and_go_back_time
verified_value blocked_to_blocked values = values.end_to_end_mode

lookup-apply_settings :
    (setting : Setting) (values : LockSettings) (s : DeviceState)
    → lookup (setting_name setting) (apply_settings values s).setting_values
      ≡ some (some (verified_value setting values))
unfolding apply_settings string_eq
lookup-apply_settings auto_lock values s =
    lookup-insert _ _ _ _ ∙ lookup-insert _ _ _ _ ∙ lookup-insert _ _ _ s.setting_values
lookup-apply_settings brake_and_go_back values s = lookup-insert _ _ _ _ ∙ lookup-insert _ _ _ _
lookup-apply_settings blocked_to_blocked values s = lookup-insert _ _ _ _

current_option-apply_settings :
    (setting : Setting) (values : LockSettings) (s : DeviceState)
    → current_option setting (apply_settings values s)
      ≡ option_for (setting_options setting) (verified_value setting values)
unfolding current_option
current_option-apply_settings setting values s = rw (lookup-apply_settings setting values s) refl

pub write_setting-monitor :
    (o : Outside) (setting : Setting) (serial : String) (value : ℕ) (s : Runtime o.World)
    → (write_setting o setting serial value s).1.monitor ≡ s.monitor
unfolding write_setting set_auto_lock set_brake_and_go_back set_end_to_end
write_setting-monitor o auto_lock serial value s =
    Frame.run_command-monitor o serial "auto lock setting change" (o.set_auto_lock value) s
write_setting-monitor o brake_and_go_back serial value s =
    Frame.run_command-monitor o serial "brake and go back setting change"
      (o.set_brake_and_go_back value) s
write_setting-monitor o blocked_to_blocked serial value s =
    Frame.run_command-monitor o serial "end-to-end mode change" (o.set_end_to_end value) s

module _ (o : Outside) (option : String) (s : SelectEntity o.World) where
  -- A selection whose write returns stores the settings that the lock read back, all three of them,
  -- and shows the label of the value that was read back, whatever was selected.
  pub select_option_verified :
      (value : ℕ) (values : LockSettings) (d : Device)
      → s.has_control ≡ true
      → lookup s.serial s.runtime.monitor.devices ≡ some d
      → value_for (setting_options s.setting) option ≡ some value
      → (write_setting o s.setting s.serial value s.runtime).0 ≡ ok values
      → let (r, t) = select_option o option s in
        (r ≡ ok tt)
        × (lookup s.serial t.runtime.monitor.devices
            ≡ some (record d { state = apply_settings values d.state }))
        × (t.written
            ≡ option_for (setting_options s.setting) (verified_value s.setting values) ∷ s.written)
  unfolding select_option write_option store_settings
  select_option_verified value values d controlled known valid answered =
      let same = write_setting-monitor o s.setting s.serial value s.runtime in
      let found = ap (λ m. lookup s.serial m.devices) same ∙ known in
      let rt = (write_setting o s.setting s.serial value s.runtime).1 in
      let put =
        lookup-insert_self s.serial (record d { state = apply_settings values d.state })
          rt.monitor.devices in
      let shown = current_option-apply_settings s.setting values d.state in
      (
        ground (arith, controlled, valid, answered),
        ground (arith, controlled, valid, answered, found, put),
        ground (arith, controlled, valid, answered, found, put, shown),
      )

  -- A selection that raises, for want of a key, for a text that is no option, or in its write, changes
  -- no device state and writes nothing to Home Assistant.
  pub select_option_raises :
      (e : Exn)
      → (select_option o option s).0 ≡ raised e
      → let t = (select_option o option s).1 in
        (t.runtime.monitor ≡ s.runtime.monitor) × (t.written ≡ s.written)
  unfolding select_option finish_select
  select_option_raises e h = elim (Bool-cases s.has_control) [
    | inr without ↦ (ground (arith, without), ground (arith, without))
    | inl controlled ↦ elim (Option-cases (value_for (setting_options s.setting) option)) [
      | inl invalid ↦ (ground (arith, controlled, invalid), ground (arith, controlled, invalid))
      | inr (value, valid) ↦
          let same = write_setting-monitor o s.setting s.serial value s.runtime in
          elim (Result-cases (write_setting o s.setting s.serial value s.runtime).0) [
            | inl (values, answered) ↦ absurd (ground (arith, controlled, valid, answered, h))
            | inr (f, failed) ↦ (
              ground (arith, controlled, valid, failed, same),
              ground (arith, controlled, valid, failed),
            )
          ]
    ]
  ]
