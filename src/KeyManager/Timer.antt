-- ===== src/KeyManager/Timer.antt =====
-- custom_components/danalock_ble/keymanager.py: the background cycle of `DanalockKeyManager`, its
-- options and its timer.
use danalock_ble_ha_integrat.Prelude.{ℕ, ◌+◌, ◌*◌, Bool, true, false, not, ◌&&◌, if◌then◌else◌, ltb}
use danalock_ble_ha_integrat.Prelude.Errors.{Result, ok, raised, is_exception}
use danalock_ble_ha_integrat.Const.{
  Options, option_refresh_hours, refresh_period_hours, refresh_jitter_hours, refresh_period_minutes,
  refresh_jitter_minutes, default_refresh_period_hours, default_refresh_jitter_hours,
}
use danalock_ble_ha_integrat.Timers.{Slot, empty_slot, arm, forget, cancel}

-- `slot` is `_cancel_timer`. The period and the jitter are in milliseconds.
pub record Background : Type 0 where
  pub slot : Slot
  pub stopped : Bool
  pub period : ℕ
  pub jitter : ℕ

-- `__init__`
abbrev pub new_background : Background
new_background = record { slot = empty_slot; stopped = false; period = 0; jitter = 0 }

abbrev pub hour : ℕ
hour = 3600 * 1000

-- `_schedule_next` with the point in time that the delay counts from. `draw` is the random number
-- that `_rng(0.0, …)` gives, for the jitter that it is called with.
unfoldable pub schedule_next : (ℕ → ℕ) → ℕ → Background → Background
schedule_next draw base s =
    let jitter = if ltb 0 s.jitter then draw s.jitter else 0 in
    record s { slot = arm (base + (s.period + jitter)) s.slot }

-- The writes of `start` to a new manager: the period and the jitter of the options.
abbrev pub configured : Options → Background
configured options = record new_background {
  period =
      option_refresh_hours options refresh_period_hours default_refresh_period_hours
        refresh_period_minutes
      * hour;
  jitter =
      option_refresh_hours options refresh_jitter_hours default_refresh_jitter_hours
        refresh_jitter_minutes
      * hour;
}

-- `start` of a new manager
unfoldable pub start_background : Options → (ℕ → ℕ) → ℕ → Background
unfolding schedule_next
start_background options draw now =
    let s = configured options in if ltb 0 s.period then schedule_next draw now s else s

-- `stop`
unfoldable pub stop_background : Background → Background
stop_background s = record s { stopped = true; slot = cancel s.slot }

-- `_run_cycle` up to the awaited refresh of all keys.
unfoldable pub begin_background : Background → Background
begin_background s = record s { slot = forget s.slot }

-- `_run_cycle` behind it: what leaves the cycle, and the `finally` with the point `now` that fired.
unfoldable pub end_background :
    (ℕ → ℕ) → ℕ → Result (Unit {0}) → Background → Result (Unit {0}) × Background
unfolding schedule_next
end_background draw now r s = (
  elim r [ ok u ↦ ok tt | raised e ↦ if is_exception e then ok tt else raised e ],
  if ltb 0 s.period && not s.stopped then schedule_next draw now s else s,
)
