-- ===== src/Control/Reported.antt =====
-- The refreshes of a key within a command raise only what Home Assistant shows.
use danalock_ble_ha_integrat.Prelude.{
  String, Bool, true, false, none, ◌≡◌, refl, ◌≢◌, arith, string_eq,
}
use danalock_ble_ha_integrat.Prelude.Dict.{lookup}
use danalock_ble_ha_integrat.Prelude.Errors.{
  Exn, ◌>>◌, catch, pure, command_error, timeout_error, channel_closed, bleak_error,
  tls_session_error, lock_control_error, lock_address_unknown_error, is_cloud_failure,
}
use danalock_ble_ha_integrat.Prelude.Hoare.{Triple, Ends-of, raised_of, triple_bind, triple_catch}
use danalock_ble_ha_integrat.Outside.{Outside, Runtime}
use danalock_ble_ha_integrat.KeyManager.{
  Handler, key, close, refresh, refresh_normalized, push_key, set_key, notify,
}
use danalock_ble_ha_integrat.KeyManager.Refresh.{ClosesQuietly, FailsAsCloud}
use danalock_ble_ha_integrat.Control.{
  ignore_cloud_failure, refresh_if_expired, report_cloud_failure, refresh_after_rejection,
}

-- LockControlError and its subclass LockAddressUnknownError, which Home Assistant shows.
abbrev pub is_reported : Exn → Bool
is_reported (lock_control_error m) = true
is_reported (lock_address_unknown_error m) = true
is_reported _ = false

-- What a facade operation raises: a status of the lock, a failure to reach it, or what the
-- transport factory raised.
abbrev pub is_expected : Exn → Bool
is_expected (command_error name status) = true
is_expected (timeout_error m) = true
is_expected (channel_closed m) = true
is_expected (bleak_error m) = true
is_expected (tls_session_error m) = true
is_expected (lock_control_error m) = true
is_expected (lock_address_unknown_error m) = true
is_expected _ = false

abbrev pub Nothing : {S : Type 0} → S → Type 0
Nothing s = Unit

module _ (o : Outside) where
  abbrev pub Reports : {A : Type 0} → (Runtime o.World → Type 0) → Handler o A → Type 0
  Reports I m = Triple I m (λ _ _. Unit) (λ e _. is_reported e ≡ true)

  abbrev pub Expected : {A : Type 0} → Handler o A → Type 0
  Expected m = Triple Nothing m (λ _ _. Unit) (λ e _. is_expected e ≡ true)

  abbrev pub Reporting : {A : Type 0} → Exn → Handler o A → Type 0
  Reporting e m = Triple (λ _. is_expected e ≡ true) m (λ _ _. Unit) (λ e' _. is_reported e' ≡ true)

module _ (o : Outside) (quiet : ClosesQuietly o) (failing : FailsAsCloud o) where
  refresh_fails :
      (serial : String)
      → Triple {S = Runtime o.World} Nothing
          (refresh o serial true)
          (λ _ _. Unit)
          (λ e _. is_cloud_failure e ≡ true)
  unfolding refresh refresh_normalized push_key set_key close notify
  refresh_fails serial s i =
      let n = o.normalize_serial serial in
      let w = (o.get_key n true s.world).1 in
      let q = quiet (record { serial = n; login_token = s.tokens n }) w in
      Ends-of (λ _ _. Unit) (λ e _. is_cloud_failure e ≡ true) (refresh o serial true s) (λ a h. tt)
        (λ e h. ground (arith, failing n true s.world e, q))

  refresh_caught :
      (serial : String) (handler : Exn → Handler o (Unit {0}))
      → ((e : Exn)
          → Triple
              (λ _. is_cloud_failure e ≡ true)
              (handler e)
              (λ _ _. Unit)
              (λ e _. is_reported e ≡ true))
      → Reports o Nothing (catch (do refresh o serial true; pure tt) handler)
  refresh_caught serial handler =
      triple_catch Nothing (λ _ _. Unit) (λ e _. is_cloud_failure e ≡ true)
        (λ e _. is_reported e ≡ true) handler (do refresh o serial true; pure tt)
        (triple_bind Nothing (λ _ _. Unit) (λ _ _. Unit) (λ e _. is_cloud_failure e ≡ true)
          (λ _. pure tt) (refresh o serial true) (refresh_fails serial) (λ _ s i. tt))

  ignore_reports :
      (e : Exn)
      → Triple {S = Runtime o.World}
          (λ _. is_cloud_failure e ≡ true)
          (ignore_cloud_failure o e)
          (λ _ _. Unit)
          (λ e _. is_reported e ≡ true)
  unfolding ignore_cloud_failure
  ignore_reports e s h = rw h tt

  report_reports :
      (e : Exn)
      → Triple {S = Runtime o.World}
          (λ _. is_cloud_failure e ≡ true)
          (report_cloud_failure o e)
          (λ _ _. Unit)
          (λ e _. is_reported e ≡ true)
  unfolding report_cloud_failure
  report_reports e s h = rw h refl

  pub expired-Reports :
      (serial : String) → Reports o (λ s. lookup serial s.keys ≢ none) (refresh_if_expired o serial)
  unfolding refresh_if_expired key
  expired-Reports serial s present =
      let m = catch (do refresh o serial true; pure tt) (ignore_cloud_failure o) in
      let c = refresh_caught serial (ignore_cloud_failure o) ignore_reports s tt in
      Ends-of (λ _ _. Unit) (λ e _. is_reported e ≡ true) (refresh_if_expired o serial s)
        (λ a h. tt)
        (λ e h. ground (arith, raised_of (λ _ _. Unit) (λ e _. is_reported e ≡ true) (m s) e c))

  pub rejection-Reports : (serial : String) → Reports o Nothing (refresh_after_rejection o serial)
  unfolding refresh_after_rejection
  rejection-Reports serial = refresh_caught serial (report_cloud_failure o) report_reports
