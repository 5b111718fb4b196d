-- ===== src/Control.antt =====
-- custom_components/danalock_ble/control.py: `DanalockControl`. A control is known by its serial;
-- what it holds is in the entry's `Runtime`. Its handlers run one after the other, as the entities'
-- commands do, and each awaited library call may change the world as it likes.
mod Messages
pub mod Sessions
pub mod Told
pub mod Retry
pub mod Reported
pub mod Mapped
pub mod Frame
unfoldable pub use Messages.{
  nothing_changed_status, token_validity_status, status_messages, format_status, command_message,
  transport_error, refresh_failed_message,
}
use danalock_ble_ha_integrat.Prelude.{
  ℕ, String, ◌<>◌, Bool, true, false, Option, none, some, List, [], ◌∷◌, ◌==◌, string_eq,
  if◌then◌else◌,
}
use danalock_ble_ha_integrat.Prelude.Dict.{lookup}
use danalock_ble_ha_integrat.Prelude.Errors.{
  Exn, Result, ok, raised, Action, pure, raise, ◌>>=◌, ◌>>◌, catch, try_finally, gets,
  command_error, value_error, lock_control_error, lock_address_unknown_error, is_cloud_failure,
  is_transport_failure, text,
}
use danalock_ble_ha_integrat.Pydanalock.{DeviceKey, LockSettings, DeviceInformation}
use danalock_ble_ha_integrat.Outside.{Outside, External, Facade, Runtime, attempted, facade}
use danalock_ble_ha_integrat.KeyManager.{Handler, outgoing, key, refresh, close}

pub data Command : Type 0 where
  lock unlock : Command

abbrev pub command_name : Command → String
command_name lock = "lock"
command_name unlock = "unlock"

-- The address that the monitor's state of the serial has.
abbrev pub address_of : {W : Type 0} → String → Runtime W → Option String
address_of serial s = elim (lookup serial s.monitor.devices) [
  | none ↦ none
  | some d ↦ d.state.address
]

module _ (o : Outside) where
  abbrev pub Library : Type 0 → Type 0
  Library A = Facade → External o.World o.Transport → External o.World A

  -- `_transport_factory`, with the address that the broadcast state has.
  unfoldable pub transport_factory : Option String → External o.World o.Transport
  transport_factory none w = (
    raised (
        lock_address_unknown_error
          "The lock has not been seen advertising yet; its Bluetooth address is unknown."),
    w,
  )
  transport_factory (some address) w = elim (o.ble_device address true w) [
    | some device ↦ o.ble_connect device w
    | none ↦ elim (o.ble_device address false w) [
      | some device ↦ o.ble_connect device w
      | none ↦ (
        raised (
            lock_address_unknown_error
              "The lock is not visible to the Bluetooth integration; wait for an advertisement."),
        w,
      )
    ]
  ]

  -- One operation of the facade that the control holds now.
  unfoldable pub call_facade : {A : Type 0} → String → Library A → Handler o A
  call_facade serial op s =
      outgoing (attempted (facade serial s))
        (op (facade serial s) (transport_factory (address_of serial s))) s

  -- `_attempt_call`
  unfoldable pub attempt_call : {A : Type 0} → String → Handler o A → Handler o A
  attempt_call serial call = try_finally call (close o serial)

  -- `_attempt`
  unfoldable pub attempt : String → Command → Handler o (Unit {0})
  attempt serial lock = try_finally (call_facade serial o.lock) (close o serial)
  attempt serial unlock = try_finally (call_facade serial o.unlock) (close o serial)

  -- `except (DanalockCloudError, httpx.HTTPError)` around the early refresh: logged, not raised.
  unfoldable pub ignore_cloud_failure : Exn → Handler o (Unit {0})
  ignore_cloud_failure e = if is_cloud_failure e then pure tt else raise e

  -- `_refresh_if_expired`
  unfoldable pub refresh_if_expired : String → Handler o (Unit {0})
  refresh_if_expired serial = do
    k ← key serial
    expired ← gets (λ s. o.key_expired k s.world)
    if expired then catch (do refresh o serial true; pure tt) ignore_cloud_failure else pure tt

  unfoldable pub report_cloud_failure : Exn → Handler o (Unit {0})
  report_cloud_failure e =
      if is_cloud_failure e then raise (lock_control_error (refresh_failed_message e)) else raise e

  -- `_refresh_after_rejection`
  unfoldable pub refresh_after_rejection : String → Handler o (Unit {0})
  refresh_after_rejection serial = catch (do refresh o serial true; pure tt) report_cloud_failure

  -- The last `except` clause of the handlers; all else passes through.
  unfoldable pub map_transport : {A : Type 0} → Exn → Handler o A
  map_transport e = if is_transport_failure e then raise (transport_error e) else raise e

  -- The handlers of the second `try` of `operate`.
  unfoldable pub on_retry_error : Command → Exn → Handler o (Unit {0})
  on_retry_error command (command_error name status) =
      if name == nothing_changed_status
      then pure tt
      else raise
          (lock_control_error (command_message name status (command_name command <> " command")))
  on_retry_error command e = map_transport e

  unfoldable pub retry : String → Command → Handler o (Unit {0})
  retry serial command = do
    refresh_after_rejection serial
    catch (attempt serial command) (on_retry_error command)

  -- The handlers of the first `try` of `operate`.
  unfoldable pub on_attempt_error : String → Command → Exn → Handler o (Unit {0})
  on_attempt_error serial command (command_error name status) =
      if name == nothing_changed_status
      then pure tt
      else if name == token_validity_status
      then retry serial command
      else raise
          (lock_control_error (command_message name status (command_name command <> " command")))
  on_attempt_error serial command e = map_transport e

  -- `operate`
  unfoldable pub operate : String → Command → Handler o (Unit {0})
  operate serial command = do
    refresh_if_expired serial
    catch (attempt serial command) (on_attempt_error serial command)

  -- The handlers of the second `try` of `_run_command`.
  unfoldable pub on_rerun_error : {A : Type 0} → String → Exn → Handler o A
  on_rerun_error action (command_error name status) =
      raise (lock_control_error (command_message name status action))
  on_rerun_error action e = map_transport e

  unfoldable pub rerun : {A : Type 0} → String → String → Handler o A → Handler o A
  rerun serial action call = do refresh_after_rejection serial; catch call (on_rerun_error action)

  unfoldable pub on_run_error : {A : Type 0} → String → String → Handler o A → Exn → Handler o A
  on_run_error serial action call (command_error name status) =
      if name == token_validity_status
      then rerun serial action call
      else raise (lock_control_error (command_message name status action))
  on_run_error serial action call e = map_transport e

  -- `_run_command`
  unfoldable pub run_command : {A : Type 0} → String → String → Handler o A → Handler o A
  run_command serial action call = do
    refresh_if_expired serial
    catch call (on_run_error serial action call)

  unfoldable pub malformed_information : Exn → Handler o DeviceInformation
  malformed_information (value_error m) =
      raise
        (lock_control_error ("The lock returned a malformed device information response: " <> m))
  malformed_information e = raise e

  -- `_read_information`
  unfoldable pub read_information : String → Handler o DeviceInformation
  read_information serial = catch (call_facade serial o.device_information) malformed_information

  unfoldable pub device_information : String → Handler o DeviceInformation
  device_information serial =
      run_command serial "device information request"
        (attempt_call serial (read_information serial))

  unfoldable pub settings : String → Handler o LockSettings
  settings serial =
      run_command serial "settings read" (attempt_call serial (call_facade serial o.settings))

  unfoldable pub set_auto_lock : String → ℕ → Handler o LockSettings
  set_auto_lock serial seconds =
      run_command serial "auto lock setting change"
        (attempt_call serial (call_facade serial (o.set_auto_lock seconds)))

  unfoldable pub set_brake_and_go_back : String → ℕ → Handler o LockSettings
  set_brake_and_go_back serial seconds =
      run_command serial "brake and go back setting change"
        (attempt_call serial (call_facade serial (o.set_brake_and_go_back seconds)))

  unfoldable pub set_end_to_end : String → ℕ → Handler o LockSettings
  set_end_to_end serial mode =
      run_command serial "end-to-end mode change"
        (attempt_call serial (call_facade serial (o.set_end_to_end mode)))

  unfoldable pub calibrate : String → ℕ → Handler o (Unit {0})
  calibrate serial point =
      run_command serial "calibration point change"
        (attempt_call serial (call_facade serial (o.set_calibration_point point)))
