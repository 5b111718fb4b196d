-- ===== src/LockEntity/Latest.antt =====
-- What the lock entity shows is what the register has.
use danalock_ble_ha_integrat.Prelude.{
  ℕ, ◌%◌, ◌^◌, String, Bool, Option, none, some, List, [], ◌∷◌, ◌≡◌, refl, arith, ◌∙◌, ltb,
  if◌then◌else◌, Bool-cases, inl, inr,
}
use danalock_ble_ha_integrat.Pydanalock.{BroadcastReport, ServiceInfo}
use danalock_ble_ha_integrat.DeviceState.{counter_increased}
use danalock_ble_ha_integrat.Broadcast.{
  Device, new_device, accept_device, refresh_device, poll_device, check_stale_device,
  sync_availability, report_changed,
}
use danalock_ble_ha_integrat.LockEntity.{is_locked}
use danalock_ble_ha_integrat.LockEntity.Register.{
  Sent, Event, heard, polled, checked, expected, apply_event, run, Register, empty_register,
  is_later, observe, observe_all, locked_by, IsNear, NearEvent, AreNear,
}

abbrev pub report_of : Option Sent → Option BroadcastReport
report_of none = none
report_of (some sent) = some sent.report

-- The device has the report and the optimistic state of the register, whose latest report carries its time.
abbrev Counted : Option Sent → Type 0
Counted none = Unit
Counted (some sent) = sent.report.counter ≡ sent.time % 2 ^ 16

Shows : Device → Register → Type 0
Shows d r =
    (d.state.report ≡ report_of r.latest)
    × (d.state.pending_locked ≡ r.expecting)
    × Counted r.latest

gate_lem :
    (old sent : Sent)
    → old.report.counter ≡ old.time % 2 ^ 16
    → IsNear sent (some old)
    → counter_increased old.report.counter sent.report.counter ≡ ltb old.time sent.time
unfolding counter_increased
gate_lem old sent counted (counter, below, above) = ground arith

accept_device-shown :
    (started : Option ℕ) (now : ℕ) (report : BroadcastReport) (info : ServiceInfo) (d : Device)
    → let s = (accept_device started now report info d).state in
      (s.report ≡ (if report_changed d.state report then some report else d.state.report))
      × (s.pending_locked
          ≡ (if report_changed d.state report then none else d.state.pending_locked))
unfolding accept_device sync_availability
accept_device-shown started now report info d = (ground arith, ground arith)

report_changed_lem :
    (sent : Sent) (d : Device) (latest : Option Sent)
    → d.state.report ≡ report_of latest
    → Counted latest
    → IsNear sent latest
    → report_changed d.state sent.report ≡ is_later sent latest
unfolding report_changed
report_changed_lem sent d none has counted near = rw has refl
report_changed_lem sent d (some old) has counted near = rw has (gate_lem old sent counted near)

near-Counted : (sent : Sent) (latest : Option Sent) → IsNear sent latest → Counted (some sent)
near-Counted sent none near = near
near-Counted sent (some old) near = near.0

heard-Shows :
    (started : Option ℕ) (sent : Sent) (info : ServiceInfo) (now : ℕ) (d : Device) (r : Register)
    → IsNear sent r.latest
    → Shows d r
    → Shows (accept_device started now sent.report info d) (observe (heard sent info now) r)
unfolding Shows observe
heard-Shows started sent info now d r near (has, expects, counted) =
    let (report, pending) = accept_device-shown started now sent.report info d in
    let same = report_changed_lem sent d r.latest has counted near in
    elim (Bool-cases (is_later sent r.latest)) [
      | inl later ↦ rw later (
        report ∙ rw (same, later) refl,
        pending ∙ rw (same, later) refl,
        near-Counted sent r.latest near,
      )
      | inr old ↦ rw old (report ∙ rw (same, old) has, pending ∙ rw (same, old) expects, counted)
    ]

quiet-Shows :
    (started : Option ℕ) (history : String → Option ServiceInfo) (now : ℕ) (d : Device)
    (r : Register)
    → Shows d r
    → Shows (refresh_device history started now d) r × Shows (check_stale_device started now d) r
unfolding Shows refresh_device poll_device check_stale_device sync_availability
quiet-Shows started history now d r (has, expects, counted) =
    ((ground arith, ground arith, counted), (ground arith, ground arith, counted))

apply_event-Shows :
    (started : Option ℕ) (e : Event) (d : Device) (r : Register)
    → NearEvent e r
    → Shows d r
    → Shows (apply_event started e d) (observe e r)
unfolding Shows apply_event observe
apply_event-Shows started (heard sent info now) d r near shows =
    heard-Shows started sent info now d r near shows
apply_event-Shows started (polled history now) d r near shows =
    (quiet-Shows started history now d r shows).0
apply_event-Shows started (checked now) d r near shows =
    (quiet-Shows started (λ _. none) now d r shows).1
apply_event-Shows started (expected locked) d r near shows = (shows.0, refl, shows.2)

run-Shows :
    (started : Option ℕ) (es : List Event) (d : Device) (r : Register)
    → AreNear es r
    → Shows d r
    → Shows (run started es d) (observe_all es r)
unfolding run observe_all
run-Shows started [] d r near shows = shows
run-Shows started (e ∷ es) d r near shows =
    run-Shows started es (apply_event started e d) (observe e r) near.1
      (apply_event-Shows started e d r near.0 shows)

Shows-is_locked : (d : Device) (r : Register) → Shows d r → is_locked d.state ≡ locked_by r
unfolding Shows is_locked
Shows-is_locked d r (has, expects, counted) = shown r.expecting r.latest expects has
  where
    shown :
        (expecting : Option Bool) (latest : Option Sent)
        → d.state.pending_locked ≡ expecting
        → d.state.report ≡ report_of latest
        → is_locked d.state ≡ locked_by (record { latest = latest; expecting = expecting })
    shown (some b) latest p q = ground (arith, p)
    shown none none p q = ground (arith, p, q)
    shown none (some sent) p q = ground (arith, p, q)

new_device-Shows : (serial : String) → Shows (new_device serial) empty_register
unfolding Shows new_device
new_device-Shows serial = (refl, refl, tt)

-- However advertisements, history polls, stale checks and commands that succeeded follow one another:
-- if each report carries its number modulo 2 ^ 16 and is fewer than 2 ^ 15 state changes away from
-- the latest one heard before it, late and repeated reports included, the device has the report with
-- the greatest number, and the lock entity shows the state of the last command since that report,
-- or else of that report.
pub run_refines :
    (serial : String) (started : Option ℕ) (es : List Event)
    → AreNear es empty_register
    → let d = run started es (new_device serial) in
      let r = observe_all es empty_register in
      (d.state.report ≡ report_of r.latest) × (is_locked d.state ≡ locked_by r)
unfolding Shows
run_refines serial started es near =
    let shows =
      run-Shows started es (new_device serial) empty_register near (new_device-Shows serial) in
    (
      shows.0,
      Shows-is_locked (run started es (new_device serial)) (observe_all es empty_register) shows,
    )
