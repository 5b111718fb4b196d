-- ===== src/Control/Frame.antt =====
-- What a command of a control leaves alone: the broadcast monitor.
use danalock_ble_ha_integrat.Prelude.{String, true, ◌≡◌, refl, arith}
use danalock_ble_ha_integrat.Prelude.Errors.{
  Exn, ◌>>◌, catch, pure, command_error, value_error, auth_error, cloud_error, http_error,
}
use danalock_ble_ha_integrat.Prelude.Hoare.{Keeps, Keeps-bind, Keeps-catch}
use danalock_ble_ha_integrat.Broadcast.{Monitor}
use danalock_ble_ha_integrat.Outside.{Outside, Runtime}
use danalock_ble_ha_integrat.KeyManager.{
  Handler, key, close, refresh, refresh_normalized, push_key, set_key, notify, on_refresh_error,
  refresh_one,
}
use danalock_ble_ha_integrat.Control.{
  Command, lock, unlock, call_facade, attempt, ignore_cloud_failure, refresh_if_expired,
  report_cloud_failure, refresh_after_rejection, map_transport, on_retry_error, retry,
  on_attempt_error, operate, Library, attempt_call, on_rerun_error, rerun, on_run_error,
  run_command, read_information, malformed_information, device_information,
}

module _ (o : Outside) (m : Monitor) where
  abbrev Same : Runtime o.World → Type 0
  Same s = s.monitor ≡ m

  Same-refresh : (serial : String) → Keeps Same (refresh o serial true)
  unfolding refresh refresh_normalized push_key set_key close notify
  Same-refresh serial s i = ground arith

  Same-refresh-catch :
      (serial : String) (handler : Exn → Handler o (Unit {0}))
      → ((e : Exn) → Keeps Same (handler e))
      → Keeps Same (catch (do refresh o serial true; pure tt) handler)
  Same-refresh-catch serial handler h =
      Keeps-catch Same (do refresh o serial true; pure tt) handler
        (Keeps-bind Same (refresh o serial true) (λ _. pure tt) (Same-refresh serial) (λ _ s i. i))
        h

  Same-expired : (serial : String) → Keeps Same (refresh_if_expired o serial)
  unfolding refresh_if_expired key ignore_cloud_failure
  Same-expired serial s i =
      ground (arith, Same-refresh-catch serial (ignore_cloud_failure o) (λ e t j. ground arith) s i)

  Same-rejection : (serial : String) → Keeps Same (refresh_after_rejection o serial)
  unfolding refresh_after_rejection report_cloud_failure
  Same-rejection serial = Same-refresh-catch serial (report_cloud_failure o) (λ e t j. ground arith)

  Same-attempt : (serial : String) (command : Command) → Keeps Same (attempt o serial command)
  unfolding attempt call_facade close
  Same-attempt serial lock s i = i
  Same-attempt serial unlock s i = i

  Same-retry : (serial : String) (command : Command) → Keeps Same (retry o serial command)
  unfolding retry on_retry_error map_transport
  Same-retry serial command =
      Keeps-bind Same (refresh_after_rejection o serial)
        (λ _. catch (attempt o serial command) (on_retry_error o command)) (Same-rejection serial)
        (λ _.
          Keeps-catch Same (attempt o serial command) (on_retry_error o command)
            (Same-attempt serial command) on_retry)
    where
      on_retry : (e : Exn) → Keeps Same (on_retry_error o command e)
      on_retry (command_error name status) s i = ground arith
      on_retry e s i = ground arith

  Same-on_attempt :
      (serial : String) (command : Command) (e : Exn)
      → Keeps Same (on_attempt_error o serial command e)
  unfolding on_attempt_error map_transport
  Same-on_attempt serial command (command_error name status) s i =
      ground (arith, Same-retry serial command s i)
  Same-on_attempt serial command e s i = ground arith

  Same-operate : (serial : String) (command : Command) → Keeps Same (operate o serial command)
  unfolding operate
  Same-operate serial command =
      Keeps-bind Same (refresh_if_expired o serial)
        (λ _. catch (attempt o serial command) (on_attempt_error o serial command))
        (Same-expired serial)
        (λ _.
          Keeps-catch Same (attempt o serial command) (on_attempt_error o serial command)
            (Same-attempt serial command) (Same-on_attempt serial command))

  Same-rerun :
      {A : Type 0} (serial action : String) (call : Handler o A)
      → Keeps Same call
      → Keeps Same (rerun o serial action call)
  unfolding rerun on_rerun_error map_transport
  Same-rerun {A} serial action call h =
      Keeps-bind Same (refresh_after_rejection o serial) (λ _. catch call (on_rerun_error o action))
        (Same-rejection serial) (λ _. Keeps-catch Same call (on_rerun_error o action) h on_rerun)
    where
      on_rerun : (e : Exn) → Keeps {A = A} Same (on_rerun_error o action e)
      on_rerun (command_error name status) s i = i
      on_rerun e s i = ground arith

  Same-on_run :
      {A : Type 0} (serial action : String) (call : Handler o A)
      → Keeps Same call
      → (e : Exn) → Keeps Same (on_run_error o serial action call e)
  unfolding on_run_error map_transport
  Same-on_run serial action call h (command_error name status) s i =
      ground (arith, Same-rerun serial action call h s i)
  Same-on_run serial action call h e s i = ground arith

  Same-run :
      {A : Type 0} (serial action : String) (call : Handler o A)
      → Keeps Same call
      → Keeps Same (run_command o serial action (attempt_call o serial call))
  unfolding run_command attempt_call close
  Same-run serial action call h =
      let attempt = attempt_call o serial call in
      let tried : Keeps Same attempt = λ s i. h s i in
      Keeps-bind Same (refresh_if_expired o serial)
        (λ _. catch attempt (on_run_error o serial action attempt)) (Same-expired serial)
        (λ _.
          Keeps-catch Same attempt (on_run_error o serial action attempt) tried
            (Same-on_run serial action attempt tried))

  Same-information : (serial : String) → Keeps Same (read_information o serial)
  unfolding read_information call_facade malformed_information
  Same-information serial =
      Keeps-catch Same (call_facade o serial o.device_information) (malformed_information o)
        (λ s i. i) malformed
    where
      malformed : (e : Exn) → Keeps Same (malformed_information o e)
      malformed (value_error m) s i = i
      malformed e s i = i

-- A lock or unlock command leaves the monitor and its device states as they are.
pub operate-monitor :
    (o : Outside) (serial : String) (command : Command) (s : Runtime o.World)
    → (operate o serial command s).1.monitor ≡ s.monitor
operate-monitor o serial command s = Same-operate o s.monitor serial command s refl

-- So does any one facade operation under the shared retry path.
pub run_command-monitor :
    (o : Outside) {A : Type 0} (serial action : String) (op : Library o A) (s : Runtime o.World)
    → (run_command o serial action (attempt_call o serial (call_facade o serial op)) s).1.monitor
      ≡ s.monitor
unfolding call_facade
run_command-monitor o serial action op s =
    Same-run o s.monitor serial action (call_facade o serial op) (λ t i. i) s refl

pub device_information-monitor :
    (o : Outside) (serial : String) (s : Runtime o.World)
    → (device_information o serial s).1.monitor ≡ s.monitor
unfolding device_information
device_information-monitor o serial s =
    Same-run o s.monitor serial "device information request" (read_information o serial)
      (Same-information o s.monitor serial) s refl

-- A refresh of a key does, too.
pub refresh_one-monitor :
    (o : Outside) (serial : String) (s : Runtime o.World)
    → (refresh_one o serial s).1.monitor ≡ s.monitor
unfolding refresh_one on_refresh_error
refresh_one-monitor o serial s =
    Same-refresh-catch o s.monitor serial (on_refresh_error o) on_error s refl
  where
    on_error : (e : Exn) → Keeps (Same o s.monitor) (on_refresh_error o e)
    on_error (auth_error m) t i = i
    on_error (cloud_error m) t i = i
    on_error (http_error m) t i = i
    on_error e t i = i
