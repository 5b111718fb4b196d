-- ===== src/ConfigFlow/Options.antt =====
-- custom_components/danalock_ble/config_flow.py: `DanalockOptionsFlow`.
use mathlib.Core.Option.{some-injective}
use danalock_ble_ha_integrat.Prelude.{
  subst, ℕ, ◌*◌, ◌≤◌, Option, none, some, [], ◌∷◌, ◌≡◌, refl, arith, leb, string_eq, if◌then◌else◌,
}
use danalock_ble_ha_integrat.Prelude.Int.{ℤ, pos, negsuc}
use danalock_ble_ha_integrat.Prelude.Dict.{lookup}
use danalock_ble_ha_integrat.Const.{
  Options, option_refresh_hours, refresh_period_hours, refresh_jitter_hours, refresh_period_minutes,
  refresh_jitter_minutes, default_refresh_period_hours, default_refresh_jitter_hours,
  max_refresh_period_hours, max_refresh_jitter_hours,
}
use danalock_ble_ha_integrat.KeyManager.Timer.{configured, hour}

-- The hours that the form proposes, `default=…` of the schema.
unfoldable pub proposed_hours : Options → ℕ × ℕ
proposed_hours options = (
  option_refresh_hours options refresh_period_hours default_refresh_period_hours
      refresh_period_minutes,
  option_refresh_hours options refresh_jitter_hours default_refresh_jitter_hours
      refresh_jitter_minutes,
)

-- `vol.Range(min=0, max=…)`
unfoldable pub in_range : ℕ → ℤ → Option ℕ
in_range max (pos n) = if leb n max then some n else none
in_range max (negsuc n) = none

unfoldable pub both : Option ℕ → Option ℕ → Option Options
both (some period) (some jitter) =
    some ((refresh_period_hours, period) ∷ (refresh_jitter_hours, jitter) ∷ [])
both _ _ = none

-- `async_step_init` with a submitted form: the schema checks the hours, and the accepted input
-- becomes the options of the entry.
unfoldable pub submit : ℤ → ℤ → Option Options
unfolding both in_range
submit period jitter =
    both (in_range max_refresh_period_hours period) (in_range max_refresh_jitter_hours jitter)

-- The hours that the key manager runs on with these options, as seconds.
abbrev pub RunsOn : ℕ → ℕ → Options → Type 0
RunsOn period jitter options =
    ((configured options).period ≡ period * hour) × ((configured options).jitter ≡ jitter * hour)

-- Hours within their bounds are saved: the key manager that starts with the saved options runs on
-- them, and the form proposes them the next time.
pub submit-configured :
    (period jitter : ℕ)
    → period ≤ max_refresh_period_hours
    → jitter ≤ max_refresh_jitter_hours
    → (saved : Options) × (submit (pos period) (pos jitter) ≡ some saved)
      × RunsOn period jitter saved
      × (proposed_hours saved ≡ (period, jitter))
unfolding submit in_range both option_refresh_hours proposed_hours lookup string_eq
submit-configured period jitter p j =
    let saved = (refresh_period_hours, period) ∷ (refresh_jitter_hours, jitter) ∷ [] in
    (saved, ground (arith, p, j), (refl, refl), refl)

in_range-bound : (max : ℕ) (x : ℤ) (n : ℕ) → in_range max x ≡ some n → n ≤ max
unfolding in_range
in_range-bound max (pos m) n h = ground (arith, h)
in_range-bound max (negsuc m) n h = cc

Within : Options → Type 0
Within saved =
    ((configured saved).period ≤ max_refresh_period_hours * hour)
    × ((configured saved).jitter ≤ max_refresh_jitter_hours * hour)

both-Within :
    (p j : Option ℕ) (saved : Options)
    → both p j ≡ some saved
    → ((n : ℕ) → p ≡ some n → n ≤ max_refresh_period_hours)
    → ((n : ℕ) → j ≡ some n → n ≤ max_refresh_jitter_hours)
    → Within saved
unfolding Within both option_refresh_hours lookup string_eq
both-Within (some p) (some j) saved e bp bj =
    subst Within
      (some-injective ((refresh_period_hours, p) ∷ (refresh_jitter_hours, j) ∷ []) saved e)
      (omega (arith, bp p refl), omega (arith, bj j refl))
both-Within (some p) none saved e bp bj = cc
both-Within none j saved e bp bj = cc

-- Whatever hours are submitted, also negative ones: options that are saved keep the key manager's
-- period and jitter within the bounds of the form.
pub submit-bounds :
    (period jitter : ℤ) (saved : Options)
    → submit period jitter ≡ some saved
    → ((configured saved).period ≤ max_refresh_period_hours * hour)
      × ((configured saved).jitter ≤ max_refresh_jitter_hours * hour)
unfolding submit Within
submit-bounds period jitter saved h =
    both-Within (in_range max_refresh_period_hours period)
      (in_range max_refresh_jitter_hours jitter) saved h
      (λ n e. in_range-bound max_refresh_period_hours period n e)
      (λ n e. in_range-bound max_refresh_jitter_hours jitter n e)
