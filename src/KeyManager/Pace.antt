-- ===== src/KeyManager/Pace.antt =====
-- The background refresh of the keys as steps: when the next cycle is due, and that stop is final.
use danalock_ble_ha_integrat.Prelude.{
  ℕ, ◌+◌, ◌≤◌, ◌<◌, Bool, true, false, none, ◌≡◌, ◌≢◌, ◌⊎◌, inl, inr, refl, arith, nat_eq,
  if◌then◌else◌, ltb, ltb→lt, subst, sym, ◌∙◌, Bool-cases,
}
use danalock_ble_ha_integrat.Prelude.Dict.{lookup}
use danalock_ble_ha_integrat.Prelude.Errors.{Result}
use danalock_ble_ha_integrat.Const.{Options}
use danalock_ble_ha_integrat.Timers.{
  Slot, arm, expire, IsIdle-empty, IsSingle, IsIdle, cancel-IsIdle, expire-IsIdle, arm-IsSingle,
  idle-IsSingle,
}
use danalock_ble_ha_integrat.KeyManager.Timer.{
  Background, configured, schedule_next, start_background, stop_background, begin_background,
  end_background,
}

-- A cycle that ends re-arms the timer if the period is positive and the manager was not stopped,
-- and only then, however the refresh ended. With a draw between zero and the jitter, the next cycle
-- is due one period after the point that fired, plus at most the jitter.
pub end_background_due :
    (draw : ℕ → ℕ) (now : ℕ) (r : Result (Unit {0})) (s : Background)
    → ((n : ℕ) → draw n ≤ n)
    → ((s.period ≡ 0) ⊎ (s.stopped ≡ true)) × ((end_background draw now r s).1 ≡ s)
      ⊎ (time : ℕ) × (0 < s.period)
        × (s.stopped ≡ false)
        × ((end_background draw now r s).1 ≡ record s { slot = arm time s.slot })
        × (now + s.period ≤ time)
        × (time ≤ now + s.period + s.jitter)
unfolding end_background schedule_next
end_background_due draw now r s drawn = elim (Bool-cases (ltb 0 s.period)) [
  | inl positive ↦ elim (Bool-cases s.stopped) [
    | inl halted ↦ inl (inr halted, ground (arith, positive, halted))
    | inr runs ↦ inr (
      now + (s.period + (if ltb 0 s.jitter then draw s.jitter else 0)),
      ltb→lt 0 s.period positive,
      runs,
      ground (arith, positive, runs),
      ground arith,
      ground (arith, drawn s.jitter),
    )
  ]
  | inr zero ↦ inl (inl (ground (arith, zero)), ground (arith, zero))
]

-- The manager, whether a cycle is in flight, and whether `stop` was ever called.
pub record Running : Type 0 where
  pub manager : Background
  pub in_flight : Bool
  pub was_stopped : Bool

-- What can happen to a started manager, in any order: the timer fires, the refresh of all keys ends
-- in whatever way, or the entry stops the manager.
pub data Step (s t : Running) : Type 0 where
  fired :
      (timer : ℕ)
      → lookup timer s.manager.slot.live ≢ none
      → t.manager ≡ begin_background (record (s.manager) { slot = expire timer s.manager.slot })
      → t.in_flight ≡ true
      → t.was_stopped ≡ s.was_stopped
      → Step s t
  ended :
      (draw : ℕ → ℕ) (now : ℕ) (r : Result (Unit {0}))
      → s.in_flight ≡ true
      → t.manager ≡ (end_background draw now r s.manager).1
      → t.in_flight ≡ false
      → t.was_stopped ≡ s.was_stopped
      → Step s t
  stopped :
      t.manager ≡ stop_background s.manager
      → t.in_flight ≡ s.in_flight
      → t.was_stopped ≡ true
      → Step s t

pub data Reach : Running → Type 0 where
  started :
      (options : Options) (draw : ℕ → ℕ) (now : ℕ)
      → Reach (record {
        manager = start_background options draw now;
        in_flight = false;
        was_stopped = false;
      })
  next : {s t : Running} → Reach s → Step s t → Reach t

IsPaced : Running → Type 0
IsPaced s =
    IsSingle s.manager.slot
    × (s.in_flight ≡ true → IsIdle s.manager.slot)
    × (s.was_stopped ≡ true → IsIdle s.manager.slot)
    × (s.was_stopped ≡ false
        → 0 < s.manager.period
        → (s.in_flight ≡ true) ⊎ (s.manager.slot.handle ≢ none))

-- The manager's flag says whether `stop` was called.
Knows : Running → Type 0
Knows s = s.manager.stopped ≡ s.was_stopped

arm_handle : (time : ℕ) (s : Slot) → (arm time s).handle ≢ none
unfolding arm
arm_handle time s = cc

-- A manager of the flag between two cycles.
abbrev resting : Background → Running
resting m = record { manager = m; in_flight = false; was_stopped = m.stopped }

rested :
    (t : Running) (m : Background)
    → t.manager ≡ m
    → t.in_flight ≡ false
    → t.was_stopped ≡ m.stopped
    → t ≡ resting m
rested t m h k l = ground (arith, h, k, l)

armed-IsPaced :
    (time : ℕ) (s : Background)
    → IsIdle s.slot
    → s.stopped ≡ false
    → IsPaced (resting (record s { slot = arm time s.slot }))
unfolding IsPaced
armed-IsPaced time s idle runs = (
  arm-IsSingle time s.slot idle,
  λ h. absurd cc,
  λ h. absurd (ground (arith, runs, h)),
  λ _ _. inr (arm_handle time s.slot),
)

idle-IsPaced :
    (s : Running)
    → IsIdle s.manager.slot
    → (s.was_stopped ≡ true) ⊎ (s.manager.period ≡ 0) ⊎ (s.in_flight ≡ true)
    → IsPaced s
unfolding IsPaced
idle-IsPaced s idle over = (
  idle-IsSingle s.manager.slot idle,
  λ _. idle,
  λ _. idle,
  λ runs positive. inl (ground (arith, over, runs, positive)),
)

same-IsPaced : {m n : Background} → n ≡ m → IsPaced (resting m) → IsPaced (resting n)
same-IsPaced same = subst (λ k. IsPaced (resting k)) (sym same)

end-IsPaced :
    (draw : ℕ → ℕ) (now : ℕ) (r : Result (Unit {0})) (s : Background)
    → IsIdle s.slot
    → IsPaced (resting (end_background draw now r s).1)
unfolding end_background schedule_next
end-IsPaced draw now r s idle = elim (Bool-cases (ltb 0 s.period)) [
  | inl positive ↦ elim (Bool-cases s.stopped) [
    | inl halted ↦
        same-IsPaced {m = s} (ground (arith, positive, halted))
          (idle-IsPaced (resting s) idle (inl halted))
    | inr runs ↦ same-IsPaced (ground (arith, positive, runs)) (
        armed-IsPaced (now + (s.period + (if ltb 0 s.jitter then draw s.jitter else 0))) s idle
          runs)
  ]
  | inr zero ↦
      same-IsPaced {m = s} (ground (arith, zero))
        (idle-IsPaced (resting s) idle (inr (inl (ground (arith, zero)))))
]

end_background-stopped :
    (draw : ℕ → ℕ) (now : ℕ) (r : Result (Unit {0})) (s : Background)
    → (end_background draw now r s).1.stopped ≡ s.stopped
unfolding end_background schedule_next
end_background-stopped draw now r s = ground arith

step-Knows : {s t : Running} → Step s t → Knows s → Knows t
unfolding Knows begin_background stop_background
step-Knows (fired timer live h flying same) knows = ground (arith, h, same, knows)
step-Knows {s} (ended draw now r flying h landed same) knows =
    ground (arith, h, same, knows, end_background-stopped draw now r s.manager)
step-Knows (stopped h same was) knows = ground (arith, h, was)

step-IsPaced : {s t : Running} → Step s t → Knows s → IsPaced s → IsPaced t
unfolding IsPaced Knows begin_background stop_background
step-IsPaced {s} {t} (fired timer live h flying same) knows paced =
    idle-IsPaced t
      (subst (λ m. IsIdle m.slot) (sym h) (expire-IsIdle timer s.manager.slot paced.0 live))
      (inr (inr flying))
step-IsPaced {s} {t} (ended draw now r flying h landed same) knows paced =
    subst IsPaced
      (sym (
        rested t _ h landed (same ∙ sym knows ∙ sym (end_background-stopped draw now r s.manager))))
      (end-IsPaced draw now r s.manager (paced.1 flying))
step-IsPaced {s} {t} (stopped h same was) knows paced =
    idle-IsPaced t (subst (λ m. IsIdle m.slot) (sym h) (cancel-IsIdle s.manager.slot paced.0))
      (inl was)

start_background-stopped :
    (options : Options) (draw : ℕ → ℕ) (now : ℕ)
    → (start_background options draw now).stopped ≡ false
unfolding start_background schedule_next
start_background-stopped options draw now = ground arith

start-IsPaced :
    (options : Options) (draw : ℕ → ℕ) (now : ℕ)
    → IsPaced (record {
      manager = start_background options draw now;
      in_flight = false;
      was_stopped = false;
    })
unfolding start_background schedule_next
start-IsPaced options draw now =
    let s = configured options in
    elim (Bool-cases (ltb 0 s.period)) [
      | inl positive ↦ rw positive (
          armed-IsPaced (now + (s.period + (if ltb 0 s.jitter then draw s.jitter else 0))) s
            IsIdle-empty refl)
      | inr zero ↦
          rw zero (idle-IsPaced (resting s) IsIdle-empty (inr (inl (ground (arith, zero)))))
    ]

Reach-Knows : {s : Running} → Reach s → Knows s
unfolding Knows
Reach-Knows (started options draw now) = start_background-stopped options draw now
Reach-Knows (next r st) = step-Knows st (Reach-Knows r)

-- However cycles and stop follow one another after a start: the event loop holds the manager's
-- timer and no other; none while a cycle is in flight, and from the first stop on none for good; and
-- as long as there was no stop, with a positive period, a cycle is in flight or the next one has its
-- timer.
pub Reach-IsPaced :
    {s : Running}
    → Reach s
    → IsSingle s.manager.slot
      × (s.in_flight ≡ true → IsIdle s.manager.slot)
      × (s.was_stopped ≡ true → IsIdle s.manager.slot)
      × (s.was_stopped ≡ false
          → 0 < s.manager.period
          → (s.in_flight ≡ true) ⊎ (s.manager.slot.handle ≢ none))
unfolding IsPaced
Reach-IsPaced (started options draw now) = start-IsPaced options draw now
Reach-IsPaced (next r st) = step-IsPaced st (Reach-Knows r) (Reach-IsPaced r)
