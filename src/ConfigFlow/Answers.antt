-- ===== src/ConfigFlow/Answers.antt =====
-- What the user step answers for each way that the cloud login can end.
use danalock_ble_ha_integrat.Prelude.{
  suc, String, false, some, List, [], ◌∷◌, ◌≡◌, refl, arith, ap, ◌∙◌, string_eq,
}
use danalock_ble_ha_integrat.Prelude.Errors.{
  Result, ok, raised, ◌>>=◌, ◌>>◌, caught, after_cleanup, gets, auth_error, cloud_error, http_error,
  validation_error, cancelled, >>=-ok,
}
use danalock_ble_ha_integrat.Storage.{TokenData}
use danalock_ble_ha_integrat.Outside.{External}
use danalock_ble_ha_integrat.Entry.{Summary}
use danalock_ble_ha_integrat.ConfigFlow.{
  Login, Flow, FlowResult, form, created, FlowAction, on_flow_world, refuse_taken, claim,
  on_login_error, refuse_empty, log_in, close_login, with_client, validate, create, refused_with,
  answered, step_user, strip, normalized_username,
}

-- The answer for the username when the login and the fetch of the devices end like this.
abbrev pub answer : String → Result (List Summary) → Result FlowResult
answer username (ok []) = ok (form "user" (some "no_keys"))
answer username (ok (d ∷ rest)) = ok (created username username)
answer username (raised (auth_error m)) = ok (form "user" (some "invalid_auth"))
answer username (raised (cloud_error m)) = ok (form "user" (some "cannot_connect"))
answer username (raised (http_error m)) = ok (form "user" (some "cannot_connect"))
answer username (raised cancelled) = raised cancelled
answer username (raised e) = ok (form "user" (some "unknown"))

verdict : Result (List Summary) → Result (Unit {0})
verdict (ok []) = raised (validation_error "no_keys")
verdict (ok (d ∷ rest)) = ok tt
verdict (raised (auth_error m)) = raised (validation_error "invalid_auth")
verdict (raised (cloud_error m)) = raised (validation_error "cannot_connect")
verdict (raised (http_error m)) = raised (validation_error "cannot_connect")
verdict (raised cancelled) = raised cancelled
verdict (raised e) = raised (validation_error "unknown")

module _ (username : String) where
  reply : {A : Type 0} → Result A → Result FlowResult
  reply (ok a) = ok (created username username)
  reply (raised e) = refused_with "user" e

  reply-verdict : (r : Result (List Summary)) → reply (verdict r) ≡ answer username r
  unfolding reply verdict refused_with
  reply-verdict (ok []) = refl
  reply-verdict (ok (d ∷ rest)) = refl
  reply-verdict (raised (auth_error m)) = refl
  reply-verdict (raised (cloud_error m)) = refl
  reply-verdict (raised (http_error m)) = refl
  reply-verdict (raised cancelled) = refl
  reply-verdict (raised e) = refl

module _ {W : Type 0} (l : Login W) where
  -- The login of the client, then its devices.
  abbrev pub attempt : String → String → External W (List Summary)
  attempt username password = l.login_password username password >> l.devices

  judge :
      (x : Result (List Summary) × Flow W l.Json l.Float)
      → (((λ _. caught (on_login_error l) x) >>= refuse_empty l) x.1).0 ≡ verdict x.0
  unfolding verdict refuse_empty on_login_error
  judge (ok [], s) = refl
  judge (ok (d ∷ rest), s) = refl
  judge (raised (auth_error m), s) = refl
  judge (raised (cloud_error m), s) = refl
  judge (raised (http_error m), s) = refl
  judge (raised cancelled, s) = refl
  judge (raised e, s) = refl

  module _ (username password : String) where
    abbrev entered : FlowAction l (List Summary)
    entered = on_flow_world l (l.login_password username password) >> on_flow_world l l.devices

    entered_lem :
        (s : Flow W l.Json l.Float) → (entered s).0 ≡ (attempt username password s.world).0
    entered_lem s = go (l.login_password username password s.world)
      where
        go :
            (x : Result (Unit {0}) × W)
            → (elim (x.0) as (λ _. Result (List Summary) × Flow W l.Json l.Float) [
              | ok u ↦ on_flow_world l l.devices (record s { world = x.1 })
              | raised e ↦ (raised e, record s { world = x.1 })
            ]).0
              ≡ (elim (x.0) as (λ _. Result (List Summary) × W) [
                | ok u ↦ l.devices x.1
                | raised e ↦ (raised e, x.1)
              ]).0
        go (ok u, w) = refl
        go (raised e, w) = refl

    log_in-verdict :
        (s : Flow W l.Json l.Float)
        → (log_in l username password s).0 ≡ verdict (attempt username password s.world).0
    unfolding log_in
    log_in-verdict s = judge (entered s) ∙ ap verdict (entered_lem s)

  module _ (quiet : (w : W) → (l.aclose w).0 ≡ ok tt) (username password : String) where
    cleaned-reply :
        (x : Result (Unit {0}) × Flow W l.Json l.Float)
        → reply username
            (((λ _. after_cleanup x.0 (close_login l x.1))
                >>= (λ _. gets (λ s. l.memory_load s.world)))
              x.1).0
          ≡ reply username x.0
    unfolding reply close_login
    cleaned-reply (ok u, s) = ground (arith, quiet s.world)
    cleaned-reply (raised e, s) = ground (arith, quiet s.world)

    with_client-reply :
        (s : Flow W l.Json l.Float)
        → reply username (with_client l username password s).0
          ≡ answer username (attempt username password s.world).0
    unfolding with_client
    with_client-reply s =
        cleaned-reply (log_in l username password s)
        ∙ ap (reply username) (log_in-verdict username password s)
        ∙ reply-verdict username (attempt username password s.world).0

    answered-reply :
        (unique_id : String) (x : Result (TokenData l.Json l.Float) × Flow W l.Json l.Float)
        → (answered l "user" (create l username unique_id) x).0 ≡ reply username x.0
    unfolding answered reply create
    answered-reply unique_id (ok token, s) = refl
    answered-reply unique_id (raised e, s) = refl

  abbrev moved : Flow W l.Json l.Float → W → Flow W l.Json l.Float
  moved s w = record s { world = w }

  claim-free :
      (unique_id : String) (s : Flow W l.Json l.Float)
      → let claimed = l.set_unique_id unique_id s.world in
        claimed.0 ≡ ok tt
        → l.is_configured unique_id claimed.1 ≡ false
        → claim l unique_id s ≡ (ok tt, moved s claimed.1)
  unfolding claim refuse_taken
  claim-free unique_id s claims free =
      let t = moved s (l.set_unique_id unique_id s.world).1 in
      >>=-ok (on_flow_world l (l.set_unique_id unique_id))
        (λ _. gets (λ s. l.is_configured unique_id s.world) >>= refuse_taken l) s tt t
        (ap (λ r. (r, t)) claims)
      ∙ ap (λ b. refuse_taken l b t) free

  -- If the username's unique id is neither in progress nor configured, the client can be built and
  -- closing it does not raise, the user step creates the entry when the login and the fetch of the
  -- devices return a device, and shows the form with "no_keys" when they return none; it answers
  -- "invalid_auth" to an AuthError, "cannot_connect" to another cloud or network error and "unknown" to
  -- any other Exception, and a cancellation goes on.
  pub step_user-answer :
      (quiet : (w : W) → (l.aclose w).0 ≡ ok tt) (user password : String)
      (s : Flow W l.Json l.Float)
      → let username = strip user in
        let unique_id = normalized_username username in
        let claimed = l.set_unique_id unique_id s.world in
        let built = l.new_client claimed.1 in
        claimed.0 ≡ ok tt
        → l.is_configured unique_id claimed.1 ≡ false
        → built.0 ≡ ok tt
        → (step_user l (some (user, password)) s).0
          ≡ answer username (attempt username password built.1).0
  unfolding step_user validate
  step_user-answer quiet user password s claims free builds =
      let username = strip user in
      let unique_id = normalized_username username in
      let t = moved s (l.set_unique_id unique_id s.world).1 in
      let u = moved t (l.new_client t.world).1 in
      ap (λ x. x.0)
        (>>=-ok (claim l unique_id)
          (λ _ v. answered l "user" (create l username unique_id) (validate l username password v))
          s tt t (claim-free unique_id s claims free))
      ∙ ap (λ x. (answered l "user" (create l username unique_id) x).0)
          (>>=-ok (on_flow_world l l.new_client)
            (λ _ v.
              with_client l username password (record v { open_clients = suc v.open_clients }))
            t tt u (ap (λ r. (r, u)) builds))
      ∙ answered-reply quiet username password unique_id
          (with_client l username password (record u { open_clients = suc u.open_clients }))
      ∙ with_client-reply quiet username password (record u { open_clients = suc u.open_clients })
