-- ===== src/Control/Messages.antt =====
-- control.py: the texts of the errors that a control raises.
use danalock_ble_ha_integrat.Prelude.{
  ℕ, zero, suc, ◌/◌, ◌%◌, String, ◌<>◌, none, some, List, [], ◌∷◌, ltb, eqb, string_eq,
  if◌then◌else◌,
}
use danalock_ble_ha_integrat.Prelude.Dict.{Dict, lookup}
use danalock_ble_ha_integrat.Prelude.Errors.{Exn, lock_control_error, tls_session_error, text}

abbrev pub nothing_changed_status : String
nothing_changed_status = "NOTHING_CHANGED"

abbrev pub token_validity_status : String
token_validity_status = "TOKEN_VALIDITY"

abbrev pub status_messages : Dict String String
status_messages =
    ("BUSY", "The lock is busy; try again shortly.")
    ∷ ("BLOCKED", "The lock is blocked (jammed).")
    ∷ ("CRITICAL_BATTERY", "The lock battery is critically low.")
    ∷ ("BAD_STATE", "The lock is in a state that does not allow this command.")
    ∷ ("HARDWARE_FAILURE", "The lock reported a hardware failure.")
    ∷ ("TIMEOUT", "The lock did not respond in time.")
    ∷ ("NOT_LOGGED_IN", "The lock session is not logged in.")
    ∷ ("UNSUPPORTED_ARGUMENT", "The lock does not support this setting or value.")
    ∷ (
      "NOT_PERMITTED",
      "The lock rejected the change: the account does not have the permission to change this setting.",
    )
    ∷ (
      "TOKEN_VALIDITY",
      "The lock rejected the login token even after a key refresh; check the cloud account and the device enrollment of the lock.",
    )
    ∷ []

nth : ℕ → List String → String
nth i [] = ""
nth zero (x ∷ xs) = x
nth (suc i) (x ∷ xs) = nth i xs

hex_digit : ℕ → String
unfolding nth
hex_digit n = nth n (
    "0" ∷ "1" ∷ "2" ∷ "3" ∷ "4" ∷ "5" ∷ "6" ∷ "7" ∷ "8" ∷ "9" ∷ "a" ∷ "b" ∷ "c" ∷ "d" ∷ "e" ∷ "f"
    ∷ [])

-- The digits of `n` before `acc`; fuel above `n` is enough, since `n` falls.
hex : ℕ → ℕ → String → String
unfolding hex_digit
hex zero n acc = acc
hex (suc fuel) n acc =
    let rest = hex fuel (n / 16) (hex_digit (n % 16) <> acc) in if eqb n 0 then acc else rest

-- `f"{status:#04x}"`: at least two digits after `0x`.
unfoldable pub format_status : ℕ → String
unfolding hex hex_digit
format_status n = "0x" <> (if ltb n 16 then "0" <> hex_digit n else hex (suc n) n "")

-- `_command_error`
unfoldable pub command_message : String → ℕ → String → String
unfolding format_status
command_message name status action = elim (lookup name status_messages) [
  | some message ↦ message
  | none ↦ "The lock rejected the " <> action <> " (status " <> format_status status <> ")."
]

-- `_transport_error`
unfoldable pub transport_error : Exn → Exn
transport_error (tls_session_error m) =
    lock_control_error ("Failed to establish a secure session with the lock: " <> m)
transport_error e = lock_control_error ("Failed to reach the lock over Bluetooth: " <> text e)

unfoldable pub refresh_failed_message : Exn → String
refresh_failed_message e =
    "The lock rejected the login token; refreshing the key from the cloud failed: "
    <> text e
    <> ". Check the cloud connection and the device enrollment."
