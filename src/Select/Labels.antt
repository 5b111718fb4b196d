-- ===== src/Select/Labels.antt =====
-- The labels of the presets and their values.
use danalock_ble_ha_integrat.Prelude.{
  ℕ, String, Bool, true, false, Option, none, some, [], ◌∷◌, ◌≡◌, ◌↔◌, refl, arith, string_eq,
  nat_eq, ◌&&◌,
}
use danalock_ble_ha_integrat.Prelude.Dict.{Dict}
use danalock_ble_ha_integrat.Select.{
  Setting, auto_lock, brake_and_go_back, blocked_to_blocked, setting_options, option_for, value_for,
}

is_none : {A : Type 0} → Option A → Bool
is_none none = true
is_none (some a) = false

-- No value and no label stands twice.
paired : Dict ℕ String → Bool
unfolding is_none option_for value_for
paired [] = true
paired ((value, option) ∷ rest) =
    is_none (option_for rest value) && is_none (value_for rest option) && paired rest

value-option :
    (options : Dict ℕ String) (value : ℕ) (option : String)
    → paired options ≡ true
    → value_for options option ≡ some value
    → option_for options value ≡ some option
unfolding paired is_none option_for value_for
value-option [] value option h found = cc
value-option ((v, c) ∷ rest) value option h found =
    ground (arith, h, found, value-option rest value option)

option-value :
    (options : Dict ℕ String) (value : ℕ) (option : String)
    → paired options ≡ true
    → option_for options value ≡ some option
    → value_for options option ≡ some value
unfolding paired is_none option_for value_for
option-value [] value option h found = cc
option-value ((v, c) ∷ rest) value option h found =
    ground (arith, h, found, option-value rest value option)

setting-paired : (setting : Setting) → paired (setting_options setting) ≡ true
unfolding paired is_none option_for value_for string_eq nat_eq
setting-paired auto_lock = refl
setting-paired brake_and_go_back = refl
setting-paired blocked_to_blocked = refl

-- Of each of the three settings: an option stands for a value exactly if the value is shown as the
-- option, for every text and every number.
pub value_for-option_for :
    (setting : Setting) (value : ℕ) (option : String)
    → value_for (setting_options setting) option ≡ some value
      ↔ option_for (setting_options setting) value ≡ some option
value_for-option_for setting value option = (
  value-option (setting_options setting) value option (setting-paired setting),
  option-value (setting_options setting) value option (setting-paired setting),
)
