-- ===== src/Broadcast/Availability.antt =====
-- The info messages of `_sync_availability`, one device at a time.
use danalock_ble_ha_integrat.Prelude.{
  ℕ, String, Bool, Option, none, List, [], ◌∷◌, true, false, ◌≡◌, ◌≢◌, arith, not,
}
use danalock_ble_ha_integrat.Pydanalock.{BroadcastReport, ServiceInfo}
use danalock_ble_ha_integrat.DeviceState.{is_fresh}
use danalock_ble_ha_integrat.Broadcast.{
  Device, Transition, gone_offline, back_online, sync_availability, accept_device, poll_device,
  refresh_device, check_stale_device,
}

-- A log, the latest message first, whose messages take turns, `gone_offline` being the first of
-- all; the flag says whether the last one was `gone_offline`.
abbrev pub Alternates : Bool → List Transition → Type 0
Alternates false [] = Unit
Alternates true [] = ⊥
Alternates true (gone_offline ∷ log) = Alternates false log
Alternates false (back_online ∷ log) = Alternates true log
Alternates true (back_online ∷ log) = ⊥
Alternates false (gone_offline ∷ log) = ⊥

abbrev pub IsLogged : Device → Type 0
IsLogged d = Alternates d.unavailable d.logged

pub sync_availability-IsLogged :
    (started : Option ℕ) (now : ℕ) (d : Device)
    → IsLogged d
    → IsLogged (sync_availability started now d)
unfolding sync_availability
sync_availability-IsLogged started now d h = ground arith

pub accept_device-IsLogged :
    (started : Option ℕ) (now : ℕ) (report : BroadcastReport) (info : ServiceInfo) (d : Device)
    → IsLogged d
    → IsLogged (accept_device started now report info d)
unfolding accept_device
accept_device-IsLogged started now report info d h = grind (arith, sync_availability-IsLogged)

pub poll_device-IsLogged :
    (started : Option ℕ) (now : ℕ) (info : ServiceInfo) (d : Device)
    → IsLogged d
    → IsLogged (poll_device started now info d)
unfolding poll_device
poll_device-IsLogged started now info d h = grind (arith, sync_availability-IsLogged)

pub refresh_device-IsLogged :
    (history : String → Option ServiceInfo) (started : Option ℕ) (now : ℕ) (d : Device)
    → IsLogged d
    → IsLogged (refresh_device history started now d)
unfolding refresh_device
refresh_device-IsLogged history started now d h = grind (arith, poll_device-IsLogged)

pub check_stale_device-IsLogged :
    (started : Option ℕ) (now : ℕ) (d : Device)
    → IsLogged d
    → IsLogged (check_stale_device started now d)
unfolding check_stale_device
check_stale_device-IsLogged started now d h = grind (arith, sync_availability-IsLogged)

-- After a stale check of a device that was seen, `unavailable` says whether it is stale.
pub check_stale_device-unavailable :
    (started : Option ℕ) (now : ℕ) (d : Device)
    → d.state.last_seen ≢ none
    → (check_stale_device started now d).unavailable ≡ not (is_fresh now d.state)
unfolding check_stale_device sync_availability
check_stale_device-unavailable started now d seen = ground arith

-- An accepted advertisement makes the device fresh and clears `unavailable`.
pub accept_device-is_fresh :
    (started : Option ℕ) (now : ℕ) (report : BroadcastReport) (info : ServiceInfo) (d : Device)
    → (is_fresh now (accept_device started now report info d).state ≡ true)
      × ((accept_device started now report info d).unavailable ≡ false)
unfolding accept_device sync_availability
accept_device-is_fresh started now report info d = ground arith
