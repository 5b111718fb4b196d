-- ===== src/Entry/Handlers.antt =====
-- The handlers of the monitor, the entities and the key manager that run on the runtime objects of an
-- entry.
use danalock_ble_ha_integrat.Prelude.{ℕ, String, Bool, true, Option, some, ◌≡◌, string_eq, nat_eq}
use danalock_ble_ha_integrat.Pydanalock.{ServiceInfo}
use danalock_ble_ha_integrat.Broadcast.{
  Monitor, Parser, handle_advertisement, refresh_states, check_stale,
}
use danalock_ble_ha_integrat.Outside.{Outside, Runtime}
use danalock_ble_ha_integrat.KeyManager.{refresh_one}
use danalock_ble_ha_integrat.Control.{calibrate, device_information}
use danalock_ble_ha_integrat.LockEntity.{LockEntity, operate}
use danalock_ble_ha_integrat.Select.{SelectEntity, select_option, select_added}
use danalock_ble_ha_integrat.Entities.{Listening, added, will_remove}

-- A handler takes the runtime objects from `r` to `t`. The Bluetooth callback runs while it is
-- registered, a timer's callback while the timer is set.
pub data Handled (o : Outside) (r t : Runtime o.World) : Type 0 where
  heard :
      (parse_broadcast : Parser) (info : ServiceInfo) (now : ℕ) (m : Monitor)
      → r.monitor.callback_registered ≡ true
      → handle_advertisement parse_broadcast r.keys info now r.monitor ≡ some m
      → t ≡ record r { monitor = m }
      → Handled o r t
  polled :
      (history : String → Option ServiceInfo) (now : ℕ)
      → r.monitor.refresh_timer ≡ true
      → t ≡ record r { monitor = refresh_states history now r.monitor }
      → Handled o r t
  checked :
      (now : ℕ)
      → r.monitor.stale_timer ≡ true
      → t ≡ record r { monitor = check_stale now r.monitor }
      → Handled o r t
  operated :
      (target : Bool) (e : LockEntity o.World)
      → t ≡ (operate o target (record e { runtime = r })).1.runtime
      → Handled o r t
  selected :
      (option : String) (e : SelectEntity o.World)
      → t ≡ (select_option o option (record e { runtime = r })).1.runtime
      → Handled o r t
  select_shown :
      (e : SelectEntity o.World)
      → t ≡ (select_added o (record e { runtime = r })).1.runtime
      → Handled o r t
  calibrated : (serial : String) (point : ℕ) → t ≡ (calibrate o serial point r).1 → Handled o r t
  informed : (serial : String) → t ≡ (device_information o serial r).1 → Handled o r t
  refreshed : (serial : String) → t ≡ (refresh_one o serial r).1 → Handled o r t
  listens :
      (e : Listening o.World) → t ≡ (added (record e { runtime = r })).1.runtime → Handled o r t
  listens_no_more :
      (e : Listening o.World)
      → t ≡ (will_remove (record e { runtime = r })).1.runtime
      → Handled o r t
