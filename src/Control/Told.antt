-- ===== src/Control/Told.antt =====
-- The commands that are not retried, and what an attempt adds.
use danalock_ble_ha_integrat.Prelude.{
  String, ◌<>◌, Bool, false, Option, some, ◌∷◌, ◌≡◌, refl, ap, ◌∙◌, arith, ◌==◌, string_eq,
  if◌then◌else◌,
}
use danalock_ble_ha_integrat.Prelude.Dict.{lookup}
use danalock_ble_ha_integrat.Prelude.Errors.{
  Result, ok, raised, caught, command_error, lock_control_error, is_transport_failure,
}
use danalock_ble_ha_integrat.Pydanalock.{DeviceKey}
use danalock_ble_ha_integrat.Outside.{Outside, Runtime, Facade, attempted, disconnected, facade}
use danalock_ble_ha_integrat.KeyManager.{key, close}
use danalock_ble_ha_integrat.KeyManager.Refresh.{ClosesQuietly}
use danalock_ble_ha_integrat.Control.{
  Command, lock, unlock, command_name, call_facade, attempt, address_of, transport_factory,
  refresh_if_expired, map_transport, on_retry_error, on_attempt_error, operate, command_message,
  transport_error,
}

-- The facade operation of a command.
abbrev pub run_lock :
    (o : Outside) → Command → Facade → Option String → o.World → Result (Unit {0}) × o.World
run_lock o lock f address w = o.lock f (transport_factory o address) w
run_lock o unlock f address w = o.unlock f (transport_factory o address) w

module _ (o : Outside) (quiet : ClosesQuietly o) where
  -- An attempt gives back what the lock answered, and adds one operation and its disconnect.
  pub attempt_lem :
      (serial : String) (command : Command) (s : Runtime o.World)
      → let r = run_lock o command (facade serial s) (address_of serial s) s.world in
        attempt o serial command s ≡ (
          r.0,
          record s {
            world = (o.disconnect (facade serial s) r.1).1;
            calls = disconnected (facade serial s) ∷ attempted (facade serial s) ∷ s.calls;
          },
        )
  unfolding attempt call_facade close
  attempt_lem serial lock s = ground (
    arith,
    quiet (facade serial s)
        (o.lock (facade serial s) (transport_factory o (address_of serial s)) s.world).1,
  )
  attempt_lem serial unlock s = ground (
    arith,
    quiet (facade serial s)
        (o.unlock (facade serial s) (transport_factory o (address_of serial s)) s.world).1,
  )

-- What a command tells its caller of an answer of the lock after which nothing is retried: a lock
-- that is in the target state already is a success, every other status a message, and a failure to
-- reach the lock a message; anything else passes through.
abbrev pub told : Command → Result (Unit {0}) → Result (Unit {0})
told command (ok u) = ok tt
told command (raised (command_error name status)) =
    if name == "NOTHING_CHANGED"
    then ok tt
    else raised
        (lock_control_error (command_message name status (command_name command <> " command")))
told command (raised e) = raised (if is_transport_failure e then transport_error e else e)

-- The answer is a rejection of the login token.
abbrev pub is_token_rejection : Result (Unit {0}) → Bool
is_token_rejection (ok u) = false
is_token_rejection (raised (command_error name status)) = name == "TOKEN_VALIDITY"
is_token_rejection (raised e) = false

pub told_on_retry :
    (o : Outside) (command : Command) (r : Result (Unit {0})) (t : Runtime o.World)
    → caught (on_retry_error o command) (r, t) ≡ (told command r, t)
unfolding on_retry_error map_transport
told_on_retry o command (ok u) t = refl
told_on_retry o command (raised (command_error name status)) t = ground arith
told_on_retry o command (raised e) t = ground arith

told_on_attempt :
    (o : Outside) (serial : String) (command : Command) (r : Result (Unit {0}))
    (t : Runtime o.World)
    → is_token_rejection r ≡ false
    → caught (on_attempt_error o serial command) (r, t) ≡ (told command r, t)
unfolding on_attempt_error map_transport
told_on_attempt o serial command (ok u) t h = refl
told_on_attempt o serial command (raised (command_error name status)) t h = ground arith
told_on_attempt o serial command (raised e) t h = ground arith

module _ (o : Outside) (quiet : ClosesQuietly o) (serial : String) (command : Command)
    (s : Runtime o.World) (k : DeviceKey) (present : lookup serial s.keys ≡ some k)
    (valid : o.key_expired k s.world ≡ false) where
  operate_starts :
      operate o serial command s
      ≡ caught (on_attempt_error o serial command) (attempt o serial command s)
  unfolding operate refresh_if_expired key
  operate_starts = ground (arith, present, valid)

  unfoldable pub first : Result (Unit {0}) × o.World
  first = run_lock o command (facade serial s) (address_of serial s) s.world

  unfoldable pub closed : Runtime o.World
  closed = record s {
    world = (o.disconnect (facade serial s) first.1).1;
    calls = disconnected (facade serial s) ∷ attempted (facade serial s) ∷ s.calls;
  }

  pub operate_answered :
      operate o serial command s ≡ caught (on_attempt_error o serial command) (first.0, closed)
  unfolding first closed
  operate_answered =
      operate_starts
      ∙ ap (caught (on_attempt_error o serial command)) (attempt_lem o quiet serial command s)

  operate_told_lem :
      is_token_rejection first.0 ≡ false
      → operate o serial command s ≡ (told command first.0, closed)
  operate_told_lem h = operate_answered ∙ told_on_attempt o serial command first.0 closed h

-- If the stored key has not expired and the lock does not reject the token: the command ends as
-- the lock answered, put into words for the user, after one operation and its disconnect and with
-- no fetch of a key.
pub operate-told :
    (o : Outside) (serial : String) (command : Command) (s : Runtime o.World) (k : DeviceKey)
    → ClosesQuietly o
    → lookup serial s.keys ≡ some k
    → o.key_expired k s.world ≡ false
    → let f = facade serial s in
      let r = run_lock o command f (address_of serial s) s.world in
      is_token_rejection r.0 ≡ false
      → ((operate o serial command s).0 ≡ told command r.0)
        × ((operate o serial command s).1.calls ≡ disconnected f ∷ attempted f ∷ s.calls)
unfolding first closed
operate-told o serial command s k quiet present valid h =
    let e = operate_told_lem o quiet serial command s k present valid h in
    (ap (λ x. x.0) e, ap (λ x. x.1.calls) e)
