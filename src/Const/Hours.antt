-- ===== src/Const/Hours.antt =====
-- The precedence of the refresh options, and the conversion of the old minute values.
use danalock_ble_ha_integrat.Prelude.{
  ℕ, String, ◌*◌, ◌+◌, ◌≤◌, ◌<◌, ◌≡◌, none, some, arith, string_eq,
}
use danalock_ble_ha_integrat.Prelude.Dict.{lookup, insert, lookup-insert_self}
use danalock_ble_ha_integrat.Const.{Options, option_refresh_hours}

-- Once hours are saved under the hour key they are read back, whatever the old minute key and the
-- default say.
pub option_refresh_hours-insert :
    (options : Options) (hours_key legacy_key : String) (hours default : ℕ)
    → option_refresh_hours (insert hours_key hours options) hours_key default legacy_key ≡ hours
unfolding option_refresh_hours
option_refresh_hours-insert options hours_key legacy_key hours default =
    ground (arith, lookup-insert_self hours_key hours options)

-- Without an hour key, the hours h read from m old minutes are the whole hours in them:
-- 60 * h ≤ m < 60 * (h + 1).
pub option_refresh_hours_legacy :
    (options : Options) (hours_key legacy_key : String) (default minutes : ℕ)
    → lookup hours_key options ≡ none
    → lookup legacy_key options ≡ some minutes
    → (60 * option_refresh_hours options hours_key default legacy_key ≤ minutes)
      × (minutes < 60 * (option_refresh_hours options hours_key default legacy_key + 1))
unfolding option_refresh_hours
option_refresh_hours_legacy options hours_key legacy_key default minutes h m = ground arith
