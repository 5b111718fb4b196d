-- ===== src/LockEntity/Register.antt =====
-- The events of one device, and a register of the latest report by the lock's own time. The lock counts
-- its reports without end, and a report carries the count modulo 2 ^ 16.
use danalock_ble_ha_integrat.Prelude.{
  ℕ, ◌+◌, ◌%◌, ◌^◌, ◌<◌, String, Bool, true, Option, none, some, List, [], ◌∷◌, ◌≡◌, ltb,
  if◌then◌else◌,
}
use danalock_ble_ha_integrat.Pydanalock.{BroadcastReport, ServiceInfo}
use danalock_ble_ha_integrat.Broadcast.{Device, accept_device, refresh_device, check_stale_device}

-- A report with the number of its state change.
pub record Sent : Type 0 where
  pub time : ℕ
  pub report : BroadcastReport

-- What happens to the state of one device, in any order: an advertisement with a report, a round of the
-- history poll, a stale check, the optimistic state of a command that succeeded.
pub data Event : Type 0 where
  heard : Sent → ServiceInfo → ℕ → Event
  polled : (String → Option ServiceInfo) → ℕ → Event
  checked : ℕ → Event
  expected : Bool → Event

unfoldable pub apply_event : Option ℕ → Event → Device → Device
apply_event started (heard sent info now) d = accept_device started now sent.report info d
apply_event started (polled history now) d = refresh_device history started now d
apply_event started (checked now) d = check_stale_device started now d
apply_event started (expected locked) d = record d {
  state = record (d.state) { pending_locked = some locked };
}

unfoldable pub run : Option ℕ → List Event → Device → Device
run started [] d = d
run started (e ∷ es) d = run started es (apply_event started e d)

-- The register: the latest report by time, and the optimistic state since then.
pub record Register : Type 0 where
  pub latest : Option Sent
  pub expecting : Option Bool

abbrev pub empty_register : Register
empty_register = record { latest = none; expecting = none }

abbrev pub is_later : Sent → Option Sent → Bool
is_later sent none = true
is_later sent (some old) = ltb old.time sent.time

unfoldable pub observe : Event → Register → Register
observe (heard sent info now) r =
    if is_later sent r.latest then record { latest = some sent; expecting = none } else r
observe (polled history now) r = r
observe (checked now) r = r
observe (expected locked) r = record r { expecting = some locked }

unfoldable pub observe_all : List Event → Register → Register
observe_all [] r = r
observe_all (e ∷ es) r = observe_all es (observe e r)

-- The state of the lock by the register.
abbrev pub locked_by : Register → Option Bool
locked_by r = elim r.expecting [
  | some locked ↦ some locked
  | none ↦ elim r.latest [ none ↦ none | some sent ↦ some sent.report.locked ]
]

-- The report carries its time modulo 2 ^ 16, and is less than 2 ^ 15 changes away from the latest one.
abbrev pub IsNear : Sent → Option Sent → Type 0
IsNear sent none = sent.report.counter ≡ sent.time % 2 ^ 16
IsNear sent (some old) =
    (sent.report.counter ≡ sent.time % 2 ^ 16)
    × (sent.time < old.time + 2 ^ 15)
    × (old.time < sent.time + 2 ^ 15)

abbrev pub NearEvent : Event → Register → Type 0
NearEvent (heard sent info now) r = IsNear sent r.latest
NearEvent _ r = Unit

-- Each report that is heard is near to the latest one before it.
abbrev pub AreNear : List Event → Register → Type 0
AreNear [] r = Unit
AreNear (e ∷ es) r = NearEvent e r × AreNear es (observe e r)
