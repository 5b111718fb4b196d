-- ===== src/Control/Retry.antt =====
-- How a lock or unlock command ends that the lock rejects for its token.
use danalock_ble_ha_integrat.Prelude.{
  String, true, false, Option, some, List, ◌∷◌, ◌≡◌, ◌≢◌, ap, ◌∙◌, arith, contains, string_eq,
}
use text.Mathlib.TextEquality.{eq_iff}
use danalock_ble_ha_integrat.Prelude.Dict.{lookup}
use danalock_ble_ha_integrat.Prelude.Errors.{
  Exn, Result, ok, raised, caught, command_error, lock_control_error, is_cloud_failure,
}
use danalock_ble_ha_integrat.Pydanalock.{DeviceKey}
use danalock_ble_ha_integrat.Outside.{
  Outside, Runtime, Facade, Call, fetched, attempted, disconnected, facade,
}
use danalock_ble_ha_integrat.KeyManager.{
  close, refresh, refresh_normalized, push_key, set_key, notify,
}
use danalock_ble_ha_integrat.KeyManager.Refresh.{ClosesQuietly}
use danalock_ble_ha_integrat.Control.{
  Command, attempt, address_of, report_cloud_failure, refresh_after_rejection, on_retry_error,
  retry, on_attempt_error, operate, refresh_failed_message,
}
use danalock_ble_ha_integrat.Control.Told.{
  run_lock, attempt_lem, told, is_token_rejection, told_on_retry, first, closed, operate_answered,
}

statuses_differ : ◌≢◌ {A = String} "TOKEN_VALIDITY" "NOTHING_CHANGED"
statuses_differ = ground (arith, eq_iff "TOKEN_VALIDITY" "NOTHING_CHANGED")

rejected_retries :
    (o : Outside) (serial : String) (command : Command) (r : Result (Unit {0}))
    (t : Runtime o.World)
    → is_token_rejection r ≡ true
    → caught (on_attempt_error o serial command) (r, t) ≡ retry o serial command t
unfolding on_attempt_error
rejected_retries o serial command (ok u) t h = cc
rejected_retries o serial command (raised (command_error name status)) t h =
    ground (arith, statuses_differ)
rejected_retries o serial command (raised e) t h = cc

-- A refresh of a serial with a bound control, whose fetch and disconnect succeed.
module _ (o : Outside) (quiet : ClosesQuietly o) (serial : String) (s : Runtime o.World)
    (k : DeviceKey) (normal : o.normalize_serial serial ≡ serial)
    (bound : contains s.controls serial ≡ true)
    (fetch : (o.get_key serial true s.world).0 ≡ ok k) where
  refreshed : Runtime o.World
  refreshed = (refresh o serial true s).1

  refreshed_lem :
      ((refresh o serial true s).0 ≡ ok k)
      × (refreshed.tokens serial ≡ k.login_blob)
      × (refreshed.world ≡ (o.disconnect (facade serial s) (o.get_key serial true s.world).1).1)
      × (refreshed.calls ≡ disconnected (facade serial s) ∷ fetched serial true ∷ s.calls)
      × (address_of serial refreshed ≡ address_of serial s)
  unfolding refreshed refresh refresh_normalized push_key set_key close notify
  refreshed_lem =
      rw (refresh, normal)
        (let q = quiet (facade serial s) (o.get_key serial true s.world).1 in
          (
            ground (arith, q),
            ground (arith, q),
            ground (arith, q),
            ground (arith, q),
            ground (arith, q),
          ))

retry_starts :
    (o : Outside) (serial : String) (command : Command) (s : Runtime o.World) (k : DeviceKey)
    → (refresh o serial true s).0 ≡ ok k
    → retry o serial command s
      ≡ caught (on_retry_error o command) (attempt o serial command (refresh o serial true s).1)
unfolding retry refresh_after_rejection
retry_starts o serial command s k h = ground (arith, h)

last_attempt :
    (o : Outside) (quiet : ClosesQuietly o) (serial : String) (command : Command)
    (t : Runtime o.World) (f : Facade) (address : Option String) (w : o.World) (cs : List Call)
    → facade serial t ≡ f
    → address_of serial t ≡ address
    → t.world ≡ w
    → t.calls ≡ cs
    → let r = caught (on_retry_error o command) (attempt o serial command t) in
      (r.0 ≡ told command (run_lock o command f address w).0)
      × (r.1.calls ≡ disconnected f ∷ attempted f ∷ cs)
last_attempt o quiet serial command t f address w cs ef ea ew ec =
    let answer = run_lock o command (facade serial t) (address_of serial t) t.world in
    let e =
      ap (caught (on_retry_error o command)) (attempt_lem o quiet serial command t)
      ∙ told_on_retry o command answer.0 (record t {
        world = (o.disconnect (facade serial t) answer.1).1;
        calls = disconnected (facade serial t) ∷ attempted (facade serial t) ∷ t.calls;
      }) in
    (
      ap (λ x. x.0) e ∙ λ i. told command (run_lock o command (ef i) (ea i) (ew i)).0,
      ap (λ x. x.1.calls) e ∙ λ i. disconnected (ef i) ∷ attempted (ef i) ∷ ec i,
    )

-- If the stored key has not expired, the lock rejects the token and the forced fetch succeeds: the
-- command is run once more, on a facade with the fetched token, and ends as the lock answers then,
-- a second rejection included. The calls are the first operation and its disconnect, one forced
-- fetch, the disconnect of the old facade, and the second operation and its disconnect.
pub operate_retried :
    (o : Outside) (serial : String) (command : Command) (s : Runtime o.World) (old new : DeviceKey)
    → ClosesQuietly o
    → lookup serial s.keys ≡ some old
    → o.key_expired old s.world ≡ false
    → o.normalize_serial serial ≡ serial
    → contains s.controls serial ≡ true
    → let f = facade serial s in
      let r = run_lock o command f (address_of serial s) s.world in
      let w = (o.disconnect f r.1).1 in
      is_token_rejection r.0 ≡ true
      → (o.get_key serial true w).0 ≡ ok new
      → let g : Facade = record { serial = serial; login_token = new.login_blob } in
        let r' =
          run_lock o command g
            (address_of serial s)
            (o.disconnect f (o.get_key serial true w).1).1 in
        ((operate o serial command s).0 ≡ told command r'.0)
        × ((operate o serial command s).1.calls
            ≡ disconnected g
              ∷ attempted g
              ∷ disconnected f
              ∷ fetched serial true
              ∷ disconnected f
              ∷ attempted f
              ∷ s.calls)
unfolding first closed refreshed
operate_retried o serial command s old new quiet present valid normal bound rejected fetch =
    let t = closed o quiet serial command s old present valid in
    let (done, token, world, calls, address) =
      refreshed_lem o quiet serial t new normal bound fetch in
    let e =
      operate_answered o quiet serial command s old present valid
      ∙ rejected_retries o serial command _ t rejected
      ∙ retry_starts o serial command t new done in
    let last =
      last_attempt o quiet serial command (refreshed o quiet serial t new normal bound fetch)
        (record { serial = serial; login_token = new.login_blob }) (address_of serial s) _ _
        (ap (λ x. record { serial = serial; login_token = x }) token) address world calls in
    (ap (λ x. x.0) e ∙ last.0, ap (λ x. x.1.calls) e ∙ last.1)

retry_refused :
    (o : Outside) (serial : String) (command : Command) (s : Runtime o.World) (x : Exn)
    → o.normalize_serial serial ≡ serial
    → (o.get_key serial true s.world).0 ≡ raised x
    → is_cloud_failure x ≡ true
    → retry o serial command s ≡ (
      raised (lock_control_error (refresh_failed_message x)),
      record s { world = (o.get_key serial true s.world).1; calls = fetched serial true ∷ s.calls },
    )
unfolding retry refresh_after_rejection report_cloud_failure refresh refresh_normalized
retry_refused o serial command s x normal fails cloud =
    rw (retry, refresh_after_rejection, refresh, normal) (ground arith)

-- If the stored key has not expired, the lock rejects the token and the forced fetch fails in the
-- cloud or the network: the command ends with the message about the failed refresh, after the one
-- operation, its disconnect and the one fetch; the keys and the facades are as before.
pub operate_not_refreshed :
    (o : Outside) (serial : String) (command : Command) (s : Runtime o.World) (k : DeviceKey)
    (x : Exn)
    → ClosesQuietly o
    → lookup serial s.keys ≡ some k
    → o.key_expired k s.world ≡ false
    → o.normalize_serial serial ≡ serial
    → let f = facade serial s in
      let r = run_lock o command f (address_of serial s) s.world in
      is_token_rejection r.0 ≡ true
      → (o.get_key serial true (o.disconnect f r.1).1).0 ≡ raised x
      → is_cloud_failure x ≡ true
      → let t = operate o serial command s in
        (t.0 ≡ raised (lock_control_error (refresh_failed_message x)))
        × (t.1.calls ≡ fetched serial true ∷ disconnected f ∷ attempted f ∷ s.calls)
        × (t.1.keys ≡ s.keys)
        × (t.1.tokens ≡ s.tokens)
unfolding first closed
operate_not_refreshed o serial command s k x quiet present valid normal rejected fails cloud =
    let t = closed o quiet serial command s k present valid in
    let start =
      operate_answered o quiet serial command s k present valid
      ∙ rejected_retries o serial command _ t rejected in
    let e = start ∙ retry_refused o serial command t x normal fails cloud in
    (ap (λ y. y.0) e, ap (λ y. y.1.calls) e, ap (λ y. y.1.keys) e, ap (λ y. y.1.tokens) e)
