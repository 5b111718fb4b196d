-- ===== src/Control/Mapped.antt =====
-- Every failure of a command reaches Home Assistant as an error with a message.
use danalock_ble_ha_integrat.Prelude.{
  String, Bool, true, Option, none, ◌≡◌, refl, ◌≢◌, arith, ◌==◌, string_eq, Bool-cases, inl, inr,
}
use danalock_ble_ha_integrat.Prelude.Dict.{lookup}
use danalock_ble_ha_integrat.Prelude.Errors.{
  Exn, Result, ok, raised, catch, command_error, timeout_error, channel_closed, bleak_error,
  tls_session_error, lock_control_error, lock_address_unknown_error,
}
use danalock_ble_ha_integrat.Prelude.Hoare.{Ends-of, raised_of, triple_bind, triple_catch}
use danalock_ble_ha_integrat.Outside.{Outside, Runtime, Facade, facade}
use danalock_ble_ha_integrat.KeyManager.{Handler, close}
use danalock_ble_ha_integrat.KeyManager.Refresh.{ClosesQuietly, FailsAsCloud}
use danalock_ble_ha_integrat.Control.{
  Command, lock, unlock, Library, call_facade, attempt_call, attempt, address_of, transport_factory,
  refresh_if_expired, refresh_after_rejection, map_transport, on_retry_error, retry,
  on_attempt_error, operate, transport_error, on_rerun_error, rerun, on_run_error, run_command,
}
use danalock_ble_ha_integrat.Control.Reported.{
  is_reported, is_expected, Nothing, Reports, Expected, Reporting, expired-Reports,
  rejection-Reports,
}

-- The operation raises only what is expected, with the control's transport factory.
abbrev pub AnswersAsLock : (o : Outside) {A : Type 0} → Library o A → Type 0
AnswersAsLock o op =
    (f : Facade) (address : Option String) (w : o.World) (e : Exn)
    → (op f (transport_factory o address) w).0 ≡ raised e
    → is_expected e ≡ true

module _ (o : Outside) (quiet : ClosesQuietly o) (failing : FailsAsCloud o) where
  on_retry_reports : (command : Command) (e : Exn) → Reporting o e (on_retry_error o command e)
  unfolding on_retry_error map_transport transport_error
  on_retry_reports command (command_error name status) s h =
      elim (Bool-cases (name == "NOTHING_CHANGED")) [ inl e ↦ rw e tt | inr e ↦ rw e refl ]
  on_retry_reports command (timeout_error m) s h = refl
  on_retry_reports command (channel_closed m) s h = refl
  on_retry_reports command (bleak_error m) s h = refl
  on_retry_reports command (tls_session_error m) s h = refl
  on_retry_reports command (lock_control_error m) s h = refl
  on_retry_reports command (lock_address_unknown_error m) s h = refl
  on_retry_reports command e s h = cc

  module _ (serial : String) (command : Command)
      (answers : Expected o (attempt o serial command)) where
    retry-Reports : Reports o Nothing (retry o serial command)
    unfolding retry
    retry-Reports =
        triple_bind Nothing (λ _ _. Unit) (λ _ _. Unit) (λ e _. is_reported e ≡ true)
          (λ _. catch (attempt o serial command) (on_retry_error o command))
          (refresh_after_rejection o serial) (rejection-Reports o quiet failing serial)
          (λ _.
            triple_catch Nothing (λ _ _. Unit) (λ e _. is_expected e ≡ true)
              (λ e _. is_reported e ≡ true) (on_retry_error o command) (attempt o serial command)
              answers (on_retry_reports command))

    on_attempt_reports : (e : Exn) → Reporting o e (on_attempt_error o serial command e)
    unfolding on_attempt_error map_transport transport_error
    on_attempt_reports (command_error name status) s h =
        elim (Bool-cases (name == "NOTHING_CHANGED")) [
          | inl e ↦ rw e tt
          | inr e ↦ elim (Bool-cases (name == "TOKEN_VALIDITY")) [
            | inl e' ↦ rw (e, e') (retry-Reports s tt)
            | inr e' ↦ rw (e, e') refl
          ]
        ]
    on_attempt_reports (timeout_error m) s h = refl
    on_attempt_reports (channel_closed m) s h = refl
    on_attempt_reports (bleak_error m) s h = refl
    on_attempt_reports (tls_session_error m) s h = refl
    on_attempt_reports (lock_control_error m) s h = refl
    on_attempt_reports (lock_address_unknown_error m) s h = refl
    on_attempt_reports e s h = cc

    operate-Reports : Reports o (λ s. lookup serial s.keys ≢ none) (operate o serial command)
    unfolding operate
    operate-Reports =
        triple_bind (λ s. lookup serial s.keys ≢ none) (λ _ _. Unit) (λ _ _. Unit)
          (λ e _. is_reported e ≡ true)
          (λ _. catch (attempt o serial command) (on_attempt_error o serial command))
          (refresh_if_expired o serial) (expired-Reports o quiet failing serial)
          (λ _.
            triple_catch Nothing (λ _ _. Unit) (λ e _. is_expected e ≡ true)
              (λ e _. is_reported e ≡ true) (on_attempt_error o serial command)
              (attempt o serial command) answers on_attempt_reports)

  module _ {A : Type 0} (serial action : String) (call : Handler o A)
      (answers : Expected o call) where
    on_rerun_reports : (e : Exn) → Reporting o e (on_rerun_error o {A = A} action e)
    unfolding on_rerun_error map_transport transport_error
    on_rerun_reports (command_error name status) s h = refl
    on_rerun_reports (timeout_error m) s h = refl
    on_rerun_reports (channel_closed m) s h = refl
    on_rerun_reports (bleak_error m) s h = refl
    on_rerun_reports (tls_session_error m) s h = refl
    on_rerun_reports (lock_control_error m) s h = refl
    on_rerun_reports (lock_address_unknown_error m) s h = refl
    on_rerun_reports e s h = cc

    rerun-Reports : Reports o Nothing (rerun o serial action call)
    unfolding rerun
    rerun-Reports =
        triple_bind Nothing (λ _ _. Unit) (λ _ _. Unit) (λ e _. is_reported e ≡ true)
          (λ _. catch call (on_rerun_error o action)) (refresh_after_rejection o serial)
          (rejection-Reports o quiet failing serial)
          (λ _.
            triple_catch Nothing (λ _ _. Unit) (λ e _. is_expected e ≡ true)
              (λ e _. is_reported e ≡ true) (on_rerun_error o action) call answers on_rerun_reports)

    on_run_reports : (e : Exn) → Reporting o e (on_run_error o serial action call e)
    unfolding on_run_error map_transport transport_error
    on_run_reports (command_error name status) s h = elim (Bool-cases (name == "TOKEN_VALIDITY")) [
      | inl e ↦ rw e (rerun-Reports s tt)
      | inr e ↦ rw e refl
    ]
    on_run_reports (timeout_error m) s h = refl
    on_run_reports (channel_closed m) s h = refl
    on_run_reports (bleak_error m) s h = refl
    on_run_reports (tls_session_error m) s h = refl
    on_run_reports (lock_control_error m) s h = refl
    on_run_reports (lock_address_unknown_error m) s h = refl
    on_run_reports e s h = cc

    run_command-Reports :
        Reports o (λ s. lookup serial s.keys ≢ none) (run_command o serial action call)
    unfolding run_command
    run_command-Reports =
        triple_bind (λ s. lookup serial s.keys ≢ none) (λ _ _. Unit) (λ _ _. Unit)
          (λ e _. is_reported e ≡ true) (λ _. catch call (on_run_error o serial action call))
          (refresh_if_expired o serial) (expired-Reports o quiet failing serial)
          (λ _.
            triple_catch Nothing (λ _ _. Unit) (λ e _. is_expected e ≡ true)
              (λ e _. is_reported e ≡ true) (on_run_error o serial action call) call answers
              on_run_reports)

  -- One operation and its disconnect raise only what is expected.
  Expected-call :
      {A : Type 0} (serial : String) (op : Library o A)
      → AnswersAsLock o op
      → Expected o (attempt_call o serial (call_facade o serial op))
  unfolding attempt_call call_facade close
  Expected-call serial op answers s i =
      let f = facade serial s in
      let r = op f (transport_factory o (address_of serial s)) s.world in
      Ends-of (λ _ _. Unit) (λ e _. is_expected e ≡ true)
        (attempt_call o serial (call_facade o serial op) s) (λ a h. tt)
        (λ e h. ground (arith, quiet f r.1, answers f (address_of serial s) s.world e))

-- The command returns, or what it raises is reported.
abbrev pub reports : {A : Type 0} → Result A → Bool
reports (ok a) = true
reports (raised e) = is_reported e

reports-raised :
    {A : Type 0} (r : Result A)
    → ((e : Exn) → r ≡ raised e → is_reported e ≡ true)
    → reports r ≡ true
reports-raised (ok a) h = refl
reports-raised (raised e) h = h e refl

operate_reported :
    (o : Outside) (serial : String) (command : Command) (s : Runtime o.World) (e : Exn)
    → ClosesQuietly o
    → FailsAsCloud o
    → AnswersAsLock o o.lock
    → AnswersAsLock o o.unlock
    → lookup serial s.keys ≢ none
    → (operate o serial command s).0 ≡ raised e
    → is_reported e ≡ true
unfolding attempt attempt_call
operate_reported o serial lock s e quiet failing locks unlocks present =
    raised_of (λ _ _. Unit) (λ e _. is_reported e ≡ true) (operate o serial lock s) e
      (operate-Reports o quiet failing serial lock
        (Expected-call o quiet failing serial o.lock locks) s present)
operate_reported o serial unlock s e quiet failing locks unlocks present =
    raised_of (λ _ _. Unit) (λ e _. is_reported e ≡ true) (operate o serial unlock s) e
      (operate-Reports o quiet failing serial unlock
        (Expected-call o quiet failing serial o.unlock unlocks) s present)

-- With a key for the serial in the shared dict, a cloud that fails by cloud and network errors only,
-- a facade whose disconnect does not raise and whose operations raise only statuses, failures to
-- reach the lock and the errors of the transport factory: a lock or unlock command, and any other
-- operation under the shared retry path, returns or raises a LockControlError or a
-- LockAddressUnknownError, and nothing else.
pub commands_report :
    (o : Outside) {A : Type 0} (serial action : String) (command : Command) (op : Library o A)
    (s : Runtime o.World)
    → ClosesQuietly o
    → FailsAsCloud o
    → AnswersAsLock o o.lock
    → AnswersAsLock o o.unlock
    → AnswersAsLock o op
    → lookup serial s.keys ≢ none
    → (reports (operate o serial command s).0 ≡ true)
      × (reports (run_command o serial action (attempt_call o serial (call_facade o serial op)) s).0
          ≡ true)
unfolding attempt_call
commands_report o serial action command op s quiet failing locks unlocks answers present = (
  reports-raised _ (λ e. operate_reported o serial command s e quiet failing locks unlocks present),
  reports-raised _ (λ e.
      raised_of (λ _ _. Unit) (λ e _. is_reported e ≡ true) _ e
        (run_command-Reports o quiet failing serial action _
          (Expected-call o quiet failing serial op answers) s present)),
)
