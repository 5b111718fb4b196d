-- ===== src/Entry/Registered.antt =====
-- No handler registers or unregisters anything of the monitor.
use danalock_ble_ha_integrat.Prelude.{
  ℕ, String, Bool, true, some, [], ◌∷◌, contains, ◌≡◌, refl, arith, ap, ◌∙◌, string_eq,
  Option-cases, Bool-cases, inl, inr, nat_eq,
}
use danalock_ble_ha_integrat.Prelude.Dict.{Dict, lookup}
use danalock_ble_ha_integrat.Prelude.Errors.{Result, ok, raised, is_exception}
use danalock_ble_ha_integrat.Pydanalock.{
  Bytes, DeviceKey, BroadcastReport, ServiceInfo, LockSettings,
}
use danalock_ble_ha_integrat.Const.{manufacturer_id}
use danalock_ble_ha_integrat.Broadcast.{
  Monitor, Parser, accept, try_keys, handle_advertisement, refresh_states, check_stale,
  remove_listener,
}
use danalock_ble_ha_integrat.Broadcast
use danalock_ble_ha_integrat.Outside.{Outside, Runtime}
use danalock_ble_ha_integrat.Control.{calibrate, settings}
use danalock_ble_ha_integrat.Control.Frame.{
  operate-monitor, run_command-monitor, device_information-monitor, refresh_one-monitor,
}
use danalock_ble_ha_integrat.LockEntity.{
  LockEntity, operate, finish, set_pending, command_of, write_state, clear_in_progress,
}
use danalock_ble_ha_integrat.Select.{
  write_option, SelectEntity, select_option, select_added, finish_select, finish_read,
  store_settings, setting_options, value_for,
}
use danalock_ble_ha_integrat.Select.Verified.{write_setting-monitor}
use danalock_ble_ha_integrat.DeviceState.{settings_known}
use danalock_ble_ha_integrat.Entities.{Listening, added, will_remove, with_monitor}
use danalock_ble_ha_integrat.Entry.Handlers.{
  Handled, heard, polled, checked, operated, selected, select_shown, calibrated, informed,
  refreshed, listens, listens_no_more,
}

-- The registrations of the monitor.
abbrev pub Registered : Type 0
Registered = Bool × Bool × Bool

abbrev pub registered : Monitor → Registered
registered m = (m.callback_registered, m.stale_timer, m.refresh_timer)

accept-registered :
    (serial : String) (report : BroadcastReport) (info : ServiceInfo) (now : ℕ) (m m' : Monitor)
    → accept serial report info now m ≡ some m'
    → registered m' ≡ registered m
unfolding accept
accept-registered serial report info now m m' h = ground (arith, h)

try_keys-registered :
    (parse_broadcast : Parser) (payload : Bytes) (info : ServiceInfo) (now : ℕ)
    (ks : Dict String DeviceKey) (m m' : Monitor)
    → try_keys parse_broadcast payload info now ks m ≡ some m'
    → registered m' ≡ registered m
unfolding try_keys
try_keys-registered parse_broadcast payload info now [] m m' h = ground (arith, h)
try_keys-registered parse_broadcast payload info now ((serial, key) ∷ ks) m m' h =
    elim (Option-cases (parse_broadcast payload key.broadcast_key)) [
      | inl e ↦
          try_keys-registered parse_broadcast payload info now ks
            (record m { logged_decode_failure = true }) m' (rw (e, try_keys) at h)
      | inr (report, e) ↦ elim (string_eq.dec report.serial serial) [
        | yes same ↦ accept-registered serial report info now m m' (ground arith)
        | no differ ↦ try_keys-registered parse_broadcast payload info now ks m m' (ground arith)
      ]
    ]

handle_advertisement-registered :
    (parse_broadcast : Parser) (ks : Dict String DeviceKey) (info : ServiceInfo) (now : ℕ)
    (m m' : Monitor)
    → handle_advertisement parse_broadcast ks info now m ≡ some m'
    → registered m' ≡ registered m
unfolding handle_advertisement
handle_advertisement-registered parse_broadcast ks info now m m' h =
    elim (Option-cases (lookup manufacturer_id info.manufacturer_data)) [
      | inl e ↦ ground arith
      | inr (payload, e) ↦
          try_keys-registered parse_broadcast payload info now ks m m' (ground arith)
    ]

set_pending-registered :
    (target : Bool) (serial : String) (m : Monitor)
    → registered (set_pending target serial m) ≡ registered m
unfolding set_pending
set_pending-registered target serial m = elim (Option-cases (lookup serial m.devices)) [
  | inl e ↦ rw (set_pending, e) refl
  | inr (d, e) ↦ rw (set_pending, e) refl
]

store_settings-registered :
    (values : LockSettings) (serial : String) (m : Monitor)
    → registered (store_settings values serial m) ≡ registered m
unfolding store_settings
store_settings-registered values serial m = elim (Option-cases (lookup serial m.devices)) [
  | inl e ↦ rw (store_settings, e) refl
  | inr (d, e) ↦ rw (store_settings, e) refl
]

module _ (o : Outside) where
  finish-registered :
      (target : Bool) (r : Result (Unit {0})) (e : LockEntity o.World)
      → registered (finish target r e).1.runtime.monitor ≡ registered e.runtime.monitor
  unfolding finish write_state clear_in_progress
  finish-registered target (ok u) e = set_pending-registered target e.serial e.runtime.monitor
  finish-registered target (raised x) e = elim (Bool-cases (is_exception x)) [
    | inl h ↦ rw h refl
    | inr h ↦ rw h refl
  ]

  operate-registered :
      (target : Bool) (e : LockEntity o.World)
      → registered (operate o target e).1.runtime.monitor ≡ registered e.runtime.monitor
  unfolding operate write_state
  operate-registered target e = elim (Bool-cases e.has_control) [
    | inl h ↦ rw h (
        finish-registered target _ _
        ∙ ap registered (operate-monitor o e.serial (command_of target) e.runtime))
    | inr h ↦ rw h refl
  ]

  finish_select-registered :
      (r : Result LockSettings) (e : SelectEntity o.World)
      → registered (finish_select r e).1.runtime.monitor ≡ registered e.runtime.monitor
  unfolding finish_select write_option
  finish_select-registered (ok values) e =
      store_settings-registered values e.serial e.runtime.monitor
  finish_select-registered (raised x) e = refl

  finish_read-registered :
      (r : Result LockSettings) (e : SelectEntity o.World)
      → registered (finish_read r e).1.runtime.monitor ≡ registered e.runtime.monitor
  unfolding finish_read write_option
  finish_read-registered (ok values) e = store_settings-registered values e.serial e.runtime.monitor
  finish_read-registered (raised x) e = elim (Bool-cases (is_exception x)) [
    | inl h ↦ rw h refl
    | inr h ↦ rw h refl
  ]

  select_option-registered :
      (option : String) (e : SelectEntity o.World)
      → registered (select_option o option e).1.runtime.monitor ≡ registered e.runtime.monitor
  unfolding select_option
  select_option-registered option e = elim (Bool-cases e.has_control) [
    | inl h ↦ elim (Option-cases (value_for (setting_options e.setting) option)) [
      | inl none_such ↦ rw (h, none_such) refl
      | inr (value, is) ↦
          rw (h, is)
            (finish_select-registered _ _
              ∙ ap registered (write_setting-monitor o e.setting e.serial value e.runtime))
    ]
    | inr h ↦ rw h refl
  ]

  select_added-registered :
      (e : SelectEntity o.World)
      → registered (select_added o e).1.runtime.monitor ≡ registered e.runtime.monitor
  unfolding select_added settings
  select_added-registered e = elim (Bool-cases e.has_control) [
    | inl h ↦ elim (Option-cases (lookup e.serial e.runtime.monitor.devices)) [
      | inl missing ↦ rw (h, missing) refl
      | inr (d, found) ↦ elim (Bool-cases (settings_known d.state)) [
        | inl known ↦ rw (h, found, known) refl
        | inr unknown ↦
            rw (h, found, unknown)
              (finish_read-registered _ _
                ∙ ap registered
                    (run_command-monitor o e.serial "settings read" o.settings e.runtime))
      ]
    ]
    | inr h ↦ rw h refl
  ]

  listens-registered :
      (e : Listening o.World)
      → (registered (added e).1.runtime.monitor ≡ registered e.runtime.monitor)
        × (registered (will_remove e).1.runtime.monitor ≡ registered e.runtime.monitor)
  unfolding added will_remove with_monitor Broadcast.add_listener remove_listener
  listens-registered e = elim (Option-cases (lookup e.serial e.runtime.monitor.devices)) [
    | inl missing ↦ elim (Bool-cases e.listens) [
      | inl h ↦ (
        rw (added, Broadcast.add_listener, missing) refl,
        rw (with_monitor, remove_listener, missing, h) refl,
      )
      | inr h ↦ (rw (added, Broadcast.add_listener, missing) refl, rw h refl)
    ]
    | inr (d, found) ↦ elim (Bool-cases e.listens) [
      | inl h ↦ (
        rw (added, Broadcast.add_listener, found) refl,
        elim (Bool-cases (contains d.listeners e.listener)) [
          | inl within ↦ rw (with_monitor, remove_listener, found, within, h) refl
          | inr without ↦ rw (with_monitor, remove_listener, found, without, h) refl
        ],
      )
      | inr h ↦ (rw (added, Broadcast.add_listener, found) refl, rw h refl)
    ]
  ]

  -- No handler registers or unregisters anything of the monitor.
  pub Handled-registered :
      {r t : Runtime o.World} → Handled o r t → registered t.monitor ≡ registered r.monitor
  unfolding refresh_states check_stale calibrate
  Handled-registered {r} (heard parse_broadcast info now m on h after) =
      rw after (handle_advertisement-registered parse_broadcast r.keys info now r.monitor m h)
  Handled-registered (polled history now on after) = rw after refl
  Handled-registered (checked now on after) = rw after refl
  Handled-registered {r} (operated target e after) =
      rw after (operate-registered target (record e { runtime = r }))
  Handled-registered {r} (selected option e after) =
      rw after (select_option-registered option (record e { runtime = r }))
  Handled-registered {r} (select_shown e after) =
      rw after (select_added-registered (record e { runtime = r }))
  Handled-registered {r} (calibrated serial point after) = rw after (
      ap registered
        (run_command-monitor o serial "calibration point change" (o.set_calibration_point point) r))
  Handled-registered {r} (informed serial after) =
      rw after (ap registered (device_information-monitor o serial r))
  Handled-registered {r} (refreshed serial after) =
      rw after (ap registered (refresh_one-monitor o serial r))
  Handled-registered {r} (listens e after) =
      rw after (listens-registered (record e { runtime = r })).0
  Handled-registered {r} (listens_no_more e after) =
      rw after (listens-registered (record e { runtime = r })).1
