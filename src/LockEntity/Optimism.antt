-- ===== src/LockEntity/Optimism.antt =====
-- What the lock entity shows while a command runs, after it, and when the lock next advertises.
use danalock_ble_ha_integrat.Prelude.{
  ℕ, Bool, true, false, Option, some, ◌∷◌, ◌≡◌, inr, arith, not, string_eq, ap, ◌∙◌,
}
use danalock_ble_ha_integrat.Prelude.Dict.{lookup, lookup-insert_self}
use danalock_ble_ha_integrat.Prelude.Errors.{Exn, ok, raised, cancelled, is_exception}
use danalock_ble_ha_integrat.Pydanalock.{BroadcastReport, ServiceInfo}
use danalock_ble_ha_integrat.DeviceState.{counter_increased}
use danalock_ble_ha_integrat.Broadcast.{Device, accept_device}
use danalock_ble_ha_integrat.Outside.{Outside}
use danalock_ble_ha_integrat.Control
use danalock_ble_ha_integrat.Control.Frame
use danalock_ble_ha_integrat.LockEntity.{
  LockEntity, is_locked, write_state, clear_in_progress, set_pending, command_of, operate,
}
use danalock_ble_ha_integrat.Broadcast.Gate.{accept_device_replay, accept_device_advance}

module _ (o : Outside) (target : Bool) (s : LockEntity o.World) (d : Device)
    (controlled : s.has_control ≡ true)
    (known : lookup s.serial s.runtime.monitor.devices ≡ some d) where
  -- A command that succeeds shows the running command first, and then the target as the lock's
  -- state, which stays as the optimistic state of the device.
  pub operate_succeeds :
      (Control.operate o s.serial (command_of target) s.runtime).0 ≡ ok tt
      → let (r, t) = operate o target s in
        (r ≡ ok tt)
        × (t.is_locking ≡ false)
        × (t.is_unlocking ≡ false)
        × (t.written
            ≡ record { locking = false; unlocking = false; locked = some target }
              ∷ record { locking = target; unlocking = not target; locked = is_locked d.state }
              ∷ s.written)
        × (lookup s.serial t.runtime.monitor.devices
            ≡ some (record d { state = record (d.state) { pending_locked = some target } }))
  unfolding operate write_state set_pending clear_in_progress is_locked
  operate_succeeds h =
      let rt = (Control.operate o s.serial (command_of target) s.runtime).1 in
      let same = Frame.operate-monitor o s.serial (command_of target) s.runtime in
      let found = ap (λ m. lookup s.serial m.devices) same ∙ known in
      let put =
        lookup-insert_self s.serial
          (record d { state = record (d.state) { pending_locked = some target } })
          rt.monitor.devices in
      (
        ground (arith, h),
        ground (arith, h),
        ground (arith, h),
        ground (arith, h, found, put),
        ground (arith, h, found, put),
      )

  -- A command that raises an Exception shows the running command, and then the lock as before; the
  -- exception leaves the entity, and no device state changes.
  pub operate_fails :
      (e : Exn)
      → (Control.operate o s.serial (command_of target) s.runtime).0 ≡ raised e
      → is_exception e ≡ true
      → let (r, t) = operate o target s in
        (r ≡ raised e)
        × (t.is_locking ≡ false)
        × (t.is_unlocking ≡ false)
        × (t.written
            ≡ record { locking = false; unlocking = false; locked = is_locked d.state }
              ∷ record { locking = target; unlocking = not target; locked = is_locked d.state }
              ∷ s.written)
        × (t.runtime.monitor ≡ s.runtime.monitor)
  unfolding operate write_state clear_in_progress
  operate_fails e h exception =
      let same = Frame.operate-monitor o s.serial (command_of target) s.runtime in
      let found = ap (λ m. lookup s.serial m.devices) same ∙ known in
      (
        ground (arith, h),
        ground (arith, h),
        ground (arith, h),
        ground (arith, h, found),
        ground (arith, h, same),
      )

  -- A command that is cancelled leaves the entity in progress: CancelledError is no Exception, so
  -- the flags stay and nothing is written after the first state.
  pub operate_cancelled :
      (Control.operate o s.serial (command_of target) s.runtime).0 ≡ raised cancelled
      → let (r, t) = operate o target s in
        (r ≡ raised cancelled)
        × (t.is_locking ≡ target)
        × (t.is_unlocking ≡ not target)
        × (t.written
            ≡ record { locking = target; unlocking = not target; locked = is_locked d.state }
              ∷ s.written)
  unfolding operate write_state
  operate_cancelled h = (ground (arith, h), ground (arith, h), ground (arith, h), ground (arith, h))

-- After a command that succeeded, an advertisement that repeats the stored report leaves the target
-- as the lock's state; one that advances the counter shows the state that the lock reports.
pub is_locked_after :
    (started : Option ℕ) (now : ℕ) (report stored : BroadcastReport) (info : ServiceInfo)
    (d : Device) (target : Bool)
    → d.state.report ≡ some stored
    → d.state.pending_locked ≡ some target
    → let s = (accept_device started now report info d).state in
      (counter_increased stored.counter report.counter ≡ false → is_locked s ≡ some target)
      × (counter_increased stored.counter report.counter ≡ true → is_locked s ≡ some report.locked)
unfolding is_locked
is_locked_after started now report stored info d target has pending = (
  λ replay. ground (arith, accept_device_replay started now report stored info d has replay),
  λ advance.
      ground (arith, accept_device_advance started now report info d (inr (stored, has, advance))),
)
