-- ===== src/Const.antt =====
-- custom_components/danalock_ble/const.py: the constants and `option_refresh_hours`.
pub mod Hours
use danalock_ble_ha_integrat.Prelude.{ℕ, String, ◌*◌, ◌/◌, ◌^◌, Option, none, some, string_eq}
use danalock_ble_ha_integrat.Prelude.Dict.{Dict, lookup}

abbrev pub domain : String
domain = "danalock_ble"

abbrev pub refresh_period_hours : String
refresh_period_hours = "refresh_period_hours"

abbrev pub refresh_jitter_hours : String
refresh_jitter_hours = "refresh_jitter_hours"

abbrev pub refresh_period_minutes : String
refresh_period_minutes = "refresh_period_minutes"

abbrev pub refresh_jitter_minutes : String
refresh_jitter_minutes = "refresh_jitter_minutes"

abbrev pub default_refresh_period_hours : ℕ
default_refresh_period_hours = 12

abbrev pub default_refresh_jitter_hours : ℕ
default_refresh_jitter_hours = 6

abbrev pub max_refresh_period_hours : ℕ
max_refresh_period_hours = 720

abbrev pub max_refresh_jitter_hours : ℕ
max_refresh_jitter_hours = 24

abbrev pub manufacturer_id : ℕ
manufacturer_id = 456

-- Times are in milliseconds.
abbrev pub broadcast_timeout : ℕ
broadcast_timeout = 300 * 1000

abbrev pub counter_modulus : ℕ
counter_modulus = 2 ^ 16

-- The stored options: the hours and minutes that the forms wrote, which are not negative.
abbrev pub Options : Type 0
Options = Dict String ℕ

unfoldable pub option_refresh_hours : Options → String → ℕ → String → ℕ
option_refresh_hours options hours_key default_hours legacy_minutes_key =
    elim (lookup hours_key options) [
      | some hours ↦ hours
      | none ↦ elim (lookup legacy_minutes_key options) [
        | some minutes ↦ minutes / 60
        | none ↦ default_hours
      ]
    ]
