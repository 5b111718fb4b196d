-- ===== src/LockEntity.antt =====
-- custom_components/danalock_ble/lock.py: `DanalockLockEntity`. The entity's device state is the
-- monitor's, so the optimistic lock state is written into the entry's `Runtime`.
pub mod Optimism
pub mod Register
pub mod Latest
pub mod Monitored
use danalock_ble_ha_integrat.Prelude.{
  ℕ, String, ◌<>◌, Bool, true, false, Option, none, some, List, [], ◌∷◌, not, string_eq,
  if◌then◌else◌, contains,
}
use danalock_ble_ha_integrat.Prelude.Dict.{Dict, lookup, insert, tabulate}
use danalock_ble_ha_integrat.Prelude.Errors.{
  Exn, Result, ok, raised, home_assistant_error, is_exception,
}
use danalock_ble_ha_integrat.Pydanalock.{BroadcastReport}
use danalock_ble_ha_integrat.DeviceState.{DeviceState}
use danalock_ble_ha_integrat.Broadcast.{Device, Monitor}
use danalock_ble_ha_integrat.Outside.{Outside, Runtime}
use danalock_ble_ha_integrat.Control.{Command, lock, unlock, command_name}
use danalock_ble_ha_integrat.Control

-- `is_locked`: the optimistic state before the report's.
unfoldable pub is_locked : DeviceState → Option Bool
is_locked s = elim s.pending_locked [
  | some pending ↦ some pending
  | none ↦ elim s.report [ none ↦ none | some report ↦ some report.locked ]
]

-- `extra_state_attributes`: each flag name of the library by its presence in the report.
unfoldable pub flag_attributes : List String → DeviceState → Option (Dict String Bool)
flag_attributes device_flag_names s = elim s.report [
  | none ↦ none
  | some report ↦ some (tabulate (λ name. contains report.device_flags name) device_flag_names)
]

-- What `async_write_ha_state` shows of the lock.
pub record Shown : Type 0 where
  pub locking : Bool
  pub unlocking : Bool
  pub locked : Option Bool

-- `has_control` is false for an entity whose `_control` is None; `written` has the states that were
-- written, the latest first.
pub record LockEntity (W : Type 0) : Type 0 where
  pub runtime : Runtime W
  pub serial : String
  pub entity_id : String
  pub has_control : Bool
  pub is_locking : Bool
  pub is_unlocking : Bool
  pub written : List Shown

-- The entity's `_device_state`, in the monitor.
unfoldable pub device_state : {W : Type 0} → LockEntity W → Option DeviceState
device_state s = elim (lookup s.serial s.runtime.monitor.devices) [
  | none ↦ none
  | some d ↦ some d.state
]

shown_locked : Option DeviceState → Option Bool
shown_locked none = none
shown_locked (some s) = is_locked s

-- `async_write_ha_state`
unfoldable pub write_state : {W : Type 0} → LockEntity W → LockEntity W
unfolding shown_locked device_state
write_state s = record s {
  written =
      (record {
        locking = s.is_locking;
        unlocking = s.is_unlocking;
        locked = shown_locked (device_state s);
      })
      ∷ s.written;
}

-- `_clear_in_progress`
unfoldable pub clear_in_progress : {W : Type 0} → LockEntity W → LockEntity W
clear_in_progress s = record s { is_locking = false; is_unlocking = false }

-- The assignment to the device state's `pending_locked`.
unfoldable pub set_pending : Bool → String → Monitor → Monitor
set_pending target serial m = elim (lookup serial m.devices) [
  | none ↦ m
  | some d ↦ record m {
    devices =
        insert serial (record d { state = record (d.state) { pending_locked = some target } })
          m.devices;
  }
]

abbrev pub command_of : Bool → Command
command_of true = lock
command_of false = unlock

-- The rest of `_operate` behind the awaited command: an `except Exception`, or the success.
unfoldable pub finish :
    {W : Type 0} → Bool → Result (Unit {0}) → LockEntity W → Result (Unit {0}) × LockEntity W
finish target (ok u) s =
    let cleared = clear_in_progress s in
    (
      ok tt,
      write_state (record cleared {
        runtime = record (cleared.runtime) {
          monitor = set_pending target cleared.serial cleared.runtime.monitor;
        };
      }),
    )
finish target (raised e) s =
    (raised e, if is_exception e then write_state (clear_in_progress s) else s)

module _ (o : Outside) where
  -- `_operate`, which `async_lock` and `async_unlock` call with true and false.
  unfoldable pub operate : Bool → LockEntity o.World → Result (Unit {0}) × LockEntity o.World
  unfolding finish
  operate target s =
      if s.has_control
      then (let begun = write_state (record s { is_locking = target; is_unlocking = not target }) in
          let (r, rt) = Control.operate o s.serial (command_of target) begun.runtime in
          finish target r (record begun { runtime = rt }))
      else (
        raised (
            home_assistant_error (
              "Cannot "
              <> command_name (command_of target)
              <> " "
              <> s.entity_id
              <> ": no key is available for this device")),
        s,
      )

  unfoldable pub async_lock : LockEntity o.World → Result (Unit {0}) × LockEntity o.World
  async_lock = operate true

  unfoldable pub async_unlock : LockEntity o.World → Result (Unit {0}) × LockEntity o.World
  async_unlock = operate false
