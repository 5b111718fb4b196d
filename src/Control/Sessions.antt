-- ===== src/Control/Sessions.antt =====
-- The sessions of a command: how many it opens, and that it closes each.
use danalock_ble_ha_integrat.Prelude.{
  ℕ, suc, ◌+◌, ◌≤◌, String, true, List, [], ◌∷◌, ◌≡◌, refl, arith, string_eq,
}
use danalock_ble_ha_integrat.Prelude.Errors.{
  Exn, Result, ok, raised, ◌>>=◌, ◌>>◌, catch, pure, try_finally, command_error,
}
use danalock_ble_ha_integrat.Outside.{
  Outside, Runtime, Facade, Call, fetched, attempted, disconnected,
}
use danalock_ble_ha_integrat.KeyManager.{
  Handler, key, close, refresh, refresh_normalized, push_key, set_key, notify,
}
use danalock_ble_ha_integrat.Control.{
  Command, lock, unlock, Library, call_facade, attempt_call, attempt, ignore_cloud_failure,
  refresh_if_expired, report_cloud_failure, refresh_after_rejection, map_transport, on_retry_error,
  retry, on_attempt_error, operate, on_rerun_error, rerun, on_run_error, run_command,
}

-- In the calls, the latest first, the call after each facade operation is the disconnect of the
-- facade that ran it.
abbrev pub Settled : List Call → Type 0
Settled [] = Unit
Settled (fetched serial force ∷ cs) = Settled cs
Settled (attempted f ∷ cs) = ⊥
Settled (disconnected f ∷ []) = Unit
Settled (disconnected f ∷ fetched serial force ∷ cs) = Settled cs
Settled (disconnected f ∷ attempted g ∷ cs) = (f ≡ g) × Settled cs
Settled (disconnected f ∷ disconnected g ∷ cs) = Settled (disconnected g ∷ cs)

-- The number of facade operations.
abbrev pub attempts : List Call → ℕ
attempts [] = 0
attempts (fetched serial force ∷ cs) = attempts cs
attempts (attempted f ∷ cs) = suc (attempts cs)
attempts (disconnected f ∷ cs) = attempts cs

Settled-disconnected : (f : Facade) (cs : List Call) → Settled cs → Settled (disconnected f ∷ cs)
Settled-disconnected f [] h = tt
Settled-disconnected f (fetched serial force ∷ cs) h = h
Settled-disconnected f (attempted g ∷ cs) h = absurd h
Settled-disconnected f (disconnected g ∷ cs) h = h

-- What the calls of one handler may add to those before it: at most `k` operations, each settled.
abbrev Within : ℕ → List Call → List Call → Type 0
Within k before later = Settled before → Settled later × (attempts later ≤ attempts before + k)

module _ (o : Outside) where
  abbrev Adds : {A : Type 0} → ℕ → Handler o A → Type 0
  Adds k m = (s : Runtime o.World) → Within k s.calls (m s).1.calls

  Adds-bind :
      {A B : Type 0} (j k : ℕ) (m : Handler o A) (f : A → Handler o B)
      → Adds j m
      → ((a : A) → Adds k (f a))
      → Adds (j + k) (m >>= f)
  Adds-bind {A} {B} j k m f h g s = go (m s) (h s)
    where
      go :
          (x : Result A × Runtime o.World)
          → Within j s.calls x.1.calls
          → Within
              (j + k)
              s.calls
              (elim (x.0) as (λ _. Result B × Runtime o.World) [
                | ok a ↦ f a x.1
                | raised e ↦ (raised e, x.1)
              ]).1.calls
      go (ok a, t) w i = let (i', n) = w i in let (i'', n') = g a t i' in (i'', omega arith)
      go (raised e, t) w i = let (i', n) = w i in (i', omega arith)

  Adds-catch :
      {A : Type 0} (j k : ℕ) (m : Handler o A) (handler : Exn → Handler o A)
      → Adds j m
      → ((e : Exn) → Adds k (handler e))
      → Adds (j + k) (catch m handler)
  Adds-catch {A} j k m handler h g s = go (m s) (h s)
    where
      go :
          (x : Result A × Runtime o.World)
          → Within j s.calls x.1.calls
          → Within
              (j + k)
              s.calls
              (elim (x.0) as (λ _. Result A × Runtime o.World) [
                | ok a ↦ (ok a, x.1)
                | raised e ↦ handler e x.1
              ]).1.calls
      go (ok a, t) w i = let (i', n) = w i in (i', omega arith)
      go (raised e, t) w i = let (i', n) = w i in let (i'', n') = g e t i' in (i'', omega arith)

  Adds-refresh : (serial : String) → Adds 0 (refresh o serial true)
  unfolding refresh refresh_normalized push_key set_key close notify
  Adds-refresh serial s i = let n = o.normalize_serial serial in (ground (arith, i), ground arith)

  Adds-close_call :
      {A : Type 0} (serial : String) (op : Library o A)
      → Adds 1 (try_finally (call_facade o serial op) (close o serial))
  unfolding call_facade close
  Adds-close_call serial op s i = ((refl, i), omega arith)

  Adds-attempt : (serial : String) (command : Command) → Adds 1 (attempt o serial command)
  unfolding attempt
  Adds-attempt serial lock = Adds-close_call serial o.lock
  Adds-attempt serial unlock = Adds-close_call serial o.unlock

  Adds-refresh-catch :
      (serial : String) (handler : Exn → Handler o (Unit {0}))
      → ((e : Exn) → Adds 0 (handler e))
      → Adds 0 (catch (do refresh o serial true; pure tt) handler)
  Adds-refresh-catch serial handler h =
      Adds-catch 0 0 (do refresh o serial true; pure tt) handler
        (Adds-bind 0 0 (refresh o serial true) (λ _. pure tt) (Adds-refresh serial)
          (λ _ s i. (i, omega arith)))
        h

  Adds-ignore : (e : Exn) → Adds 0 (ignore_cloud_failure o e)
  unfolding ignore_cloud_failure
  Adds-ignore e s i = (ground (arith, i), ground arith)

  Adds-report : (e : Exn) → Adds 0 (report_cloud_failure o e)
  unfolding report_cloud_failure
  Adds-report e s i = (ground (arith, i), ground arith)

  Adds-map_transport : (A : Type 0) (e : Exn) → Adds 0 (map_transport o {A = A} e)
  unfolding map_transport
  Adds-map_transport A e s i = (ground (arith, i), ground arith)

  Adds-refresh_if_expired : (serial : String) → Adds 0 (refresh_if_expired o serial)
  unfolding refresh_if_expired key
  Adds-refresh_if_expired serial s i =
      let c = Adds-refresh-catch serial (ignore_cloud_failure o) Adds-ignore s i in
      (ground (arith, i, c.0), ground (arith, c.1))

  Adds-rejection : (serial : String) → Adds 0 (refresh_after_rejection o serial)
  unfolding refresh_after_rejection
  Adds-rejection serial = Adds-refresh-catch serial (report_cloud_failure o) Adds-report

  Adds-on_retry : (command : Command) (e : Exn) → Adds 0 (on_retry_error o command e)
  unfolding on_retry_error
  Adds-on_retry command (command_error name status) s i = (ground (arith, i), ground arith)
  Adds-on_retry command e s i = Adds-map_transport (Unit {0}) e s i

  Adds-retry : (serial : String) (command : Command) → Adds 1 (retry o serial command)
  unfolding retry
  Adds-retry serial command =
      Adds-bind 0 1 (refresh_after_rejection o serial)
        (λ _. catch (attempt o serial command) (on_retry_error o command)) (Adds-rejection serial)
        (λ _.
          Adds-catch 1 0 (attempt o serial command) (on_retry_error o command)
            (Adds-attempt serial command) (Adds-on_retry command))

  Adds-on_attempt :
      (serial : String) (command : Command) (e : Exn) → Adds 1 (on_attempt_error o serial command e)
  unfolding on_attempt_error
  Adds-on_attempt serial command (command_error name status) s i =
      let r = Adds-retry serial command s i in (ground (arith, i, r.0), ground (arith, r.1))
  Adds-on_attempt serial command e s i =
      let r = Adds-map_transport (Unit {0}) e s i in (r.0, omega (arith, r.1))

  Adds-operate : (serial : String) (command : Command) → Adds 2 (operate o serial command)
  unfolding operate
  Adds-operate serial command =
      Adds-bind 0 2 (refresh_if_expired o serial)
        (λ _. catch (attempt o serial command) (on_attempt_error o serial command))
        (Adds-refresh_if_expired serial)
        (λ _.
          Adds-catch 1 1 (attempt o serial command) (on_attempt_error o serial command)
            (Adds-attempt serial command) (Adds-on_attempt serial command))

  module _ {A : Type 0} (serial action : String) (call : Handler o A) (one : Adds 1 call) where
    Adds-on_rerun : (e : Exn) → Adds 0 (on_rerun_error o {A = A} action e)
    unfolding on_rerun_error
    Adds-on_rerun (command_error name status) s i = (i, omega arith)
    Adds-on_rerun e s i = Adds-map_transport A e s i

    Adds-rerun : Adds 1 (rerun o serial action call)
    unfolding rerun
    Adds-rerun =
        Adds-bind 0 1 (refresh_after_rejection o serial) (λ _. catch call (on_rerun_error o action))
          (Adds-rejection serial)
          (λ _. Adds-catch 1 0 call (on_rerun_error o action) one Adds-on_rerun)

    Adds-on_run : (e : Exn) → Adds 1 (on_run_error o serial action call e)
    unfolding on_run_error
    Adds-on_run (command_error name status) s i =
        let r = Adds-rerun s i in (ground (arith, i, r.0), ground (arith, r.1))
    Adds-on_run e s i = let r = Adds-map_transport A e s i in (r.0, omega (arith, r.1))

    Adds-run_command : Adds 2 (run_command o serial action call)
    unfolding run_command
    Adds-run_command =
        Adds-bind 0 2 (refresh_if_expired o serial)
          (λ _. catch call (on_run_error o serial action call)) (Adds-refresh_if_expired serial)
          (λ _. Adds-catch 1 1 call (on_run_error o serial action call) one Adds-on_run)

-- A lock or unlock command, however it ends: it runs at most two operations on the lock, and the
-- call after each operation is the disconnect of the same facade.
pub operate-Settled :
    (o : Outside) (serial : String) (command : Command) (s : Runtime o.World)
    → Settled s.calls
    → Settled (operate o serial command s).1.calls
      × (attempts (operate o serial command s).1.calls ≤ attempts s.calls + 2)
operate-Settled o serial command = Adds-operate o serial command

-- The same of any one facade operation that runs as an attempt under the shared retry path: however
-- it ends, at most two operations run, and each is followed at once by its facade's disconnect.
pub run_command-Settled :
    (o : Outside) {A : Type 0} (serial action : String) (op : Library o A) (s : Runtime o.World)
    → Settled s.calls
    → let t = (run_command o serial action (attempt_call o serial (call_facade o serial op)) s).1 in
      Settled t.calls × (attempts t.calls ≤ attempts s.calls + 2)
unfolding attempt_call
run_command-Settled o serial action op =
    Adds-run_command o serial action _ (Adds-close_call o serial op)
