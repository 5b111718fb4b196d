-- ===== src/ConfigFlow/Clients.antt =====
-- The login flow closes the clients that it opens.
use danalock_ble_ha_integrat.Prelude.{
  ℕ, suc, String, Bool, true, false, Option, none, some, List, [], ◌∷◌, ◌≡◌, refl, arith, ap,
  string_eq,
}
use danalock_ble_ha_integrat.Prelude.Errors.{
  Exn, Result, ok, raised, ◌>>=◌, ◌>>◌, catch, try_finally, gets, auth_error, cloud_error,
  http_error, cancelled,
}
use danalock_ble_ha_integrat.Prelude.Hoare.{Keeps, Keeps-bind, Leads-bind, Keeps-catch}
use danalock_ble_ha_integrat.Storage.{TokenData}
use danalock_ble_ha_integrat.Entry.{Summary}
use danalock_ble_ha_integrat.ConfigFlow.{
  Login, Flow, FlowResult, FlowAction, on_flow_world, stage_pending_tokens, claim, refuse_taken,
  is_own, claim_unless, claim_changed, with_client, on_login_error, refuse_empty, log_in,
  close_login, validate, create, answered, step_user, update_entry, revalidation_step,
  step_reauth_confirm, step_reconfigure, strip, normalized_username,
}

module _ {W : Type 0} (l : Login W) where
  abbrev FlowState : Type 0
  FlowState = Flow W l.Json l.Float

  -- Whatever the calls do not write is the same after the login.
  module _ (P : FlowState → Type 0)
      (blind : (s : FlowState) (w : W) → P s → P (record s { world = w })) where
    pub world-Keeps : {A : Type 0} (m : W → Result A × W) → Keeps P (on_flow_world l m)
    world-Keeps m s i = blind s (m s.world).1 i

    on_login_error-Keeps : (e : Exn) → Keeps P (on_login_error l e)
    unfolding on_login_error
    on_login_error-Keeps (auth_error m) s i = i
    on_login_error-Keeps (http_error m) s i = i
    on_login_error-Keeps (cloud_error m) s i = i
    on_login_error-Keeps cancelled s i = i
    on_login_error-Keeps e s i = i

    refuse_empty-Keeps : (ds : List Summary) → Keeps P (refuse_empty l ds)
    unfolding refuse_empty
    refuse_empty-Keeps [] s i = i
    refuse_empty-Keeps (d ∷ rest) s i = i

    pub log_in-Keeps : (username password : String) → Keeps P (log_in l username password)
    unfolding log_in
    log_in-Keeps username password =
        let enter = on_flow_world l (l.login_password username password) in
        let fetch = on_flow_world l l.devices in
        Keeps-bind P (catch (enter >> fetch) (on_login_error l)) (refuse_empty l)
          (Keeps-catch P (enter >> fetch) (on_login_error l)
            (Keeps-bind P enter (λ _. fetch) (world-Keeps (l.login_password username password))
              (λ _. world-Keeps l.devices))
            on_login_error-Keeps)
          refuse_empty-Keeps

    refuse_taken-Keeps : (taken : Bool) → Keeps P (refuse_taken l taken)
    unfolding refuse_taken
    refuse_taken-Keeps true s i = i
    refuse_taken-Keeps false s i = i

    pub claim-Keeps : (unique_id : String) → Keeps P (claim l unique_id)
    unfolding claim
    claim-Keeps unique_id =
        Keeps-bind P (on_flow_world l (l.set_unique_id unique_id))
          (λ _. gets (λ s. l.is_configured unique_id s.world) >>= refuse_taken l)
          (world-Keeps (l.set_unique_id unique_id))
          (λ _ s. refuse_taken-Keeps (l.is_configured unique_id s.world) s)

    claim_unless-Keeps : (own : Bool) (unique_id : String) → Keeps P (claim_unless l own unique_id)
    unfolding claim_unless
    claim_unless-Keeps true unique_id s i = i
    claim_unless-Keeps false unique_id s i = claim-Keeps unique_id s i

    pub claim_changed-Keeps : (unique_id : String) → Keeps P (claim_changed l unique_id)
    unfolding claim_changed
    claim_changed-Keeps unique_id s i =
        claim_unless-Keeps (is_own unique_id s.entry.unique_id) unique_id s i

  abbrev IsOpen : ℕ → FlowState → Type 0
  IsOpen n s = s.open_clients ≡ n

  module _ (quiet : (w : W) → (l.aclose w).0 ≡ ok tt) (n : ℕ) where
    close_login-IsOpen : (s : FlowState) → IsOpen (suc n) s → IsOpen n (close_login l s).1
    unfolding close_login
    close_login-IsOpen s i = ground (arith, quiet s.world, i)

    with_client-IsOpen :
        (username password : String) (s : FlowState)
        → IsOpen (suc n) s
        → IsOpen n (with_client l username password s).1
    unfolding with_client
    with_client-IsOpen username password =
        Leads-bind (IsOpen (suc n)) (IsOpen n)
          (try_finally (log_in l username password) (close_login l))
          (λ _. gets (λ s. l.memory_load s.world))
          (λ s i.
            close_login-IsOpen (log_in l username password s).1
              (log_in-Keeps (IsOpen (suc n)) (λ s w i. i) username password s i))
          (λ _ s i. i)

    pub validate-IsOpen :
        (username password : String) → Keeps (IsOpen n) (validate l username password)
    unfolding validate
    validate-IsOpen username password =
        Keeps-bind (IsOpen n) (on_flow_world l l.new_client)
          (λ _ s. with_client l username password (record s { open_clients = suc s.open_clients }))
          (λ s i. i)
          (λ _ s i.
            with_client-IsOpen username password (record s { open_clients = suc s.open_clients })
              (ap suc i))

    answered-IsOpen :
        (step_id : String) (f : TokenData l.Json l.Float → FlowAction l FlowResult)
        → ((token : TokenData l.Json l.Float) → Keeps (IsOpen n) (f token))
        → (x : Result (TokenData l.Json l.Float) × FlowState) → IsOpen n x.1
        → IsOpen n (answered l step_id f x).1
    unfolding answered
    answered-IsOpen step_id f h (ok token, s) i = h token s i
    answered-IsOpen step_id f h (raised e, s) i = i

    create-IsOpen :
        (username unique_id : String) (token : TokenData l.Json l.Float)
        → Keeps (IsOpen n) (create l username unique_id token)
    unfolding create stage_pending_tokens
    create-IsOpen username unique_id token s i = i

    update_entry-IsOpen :
        (username : String) (token : TokenData l.Json l.Float)
        → Keeps (IsOpen n) (update_entry l username token)
    unfolding update_entry
    update_entry-IsOpen username token s i = i

    user-IsOpen : (input : Option (String × String)) → Keeps (IsOpen n) (step_user l input)
    unfolding step_user
    user-IsOpen none = λ s i. i
    user-IsOpen (some (user, password)) =
        let username = strip user in
        let unique_id = normalized_username username in
        Keeps-bind (IsOpen n) (claim l unique_id)
          (λ _ s. answered l "user" (create l username unique_id) (validate l username password s))
          (claim-Keeps (IsOpen n) (λ s w i. i) unique_id)
          (λ _ s i.
            answered-IsOpen "user" (create l username unique_id) (create-IsOpen username unique_id)
              (validate l username password s) (validate-IsOpen username password s i))

    revalidation-IsOpen :
        (step_id : String) (input : Option (String × String))
        → Keeps (IsOpen n) (revalidation_step l step_id input)
    unfolding revalidation_step
    revalidation-IsOpen step_id none = λ s i. i
    revalidation-IsOpen step_id (some (user, password)) =
        let username = strip user in
        Keeps-bind (IsOpen n) (claim_changed l (normalized_username username))
          (λ _ s. answered l step_id (update_entry l username) (validate l username password s))
          (claim_changed-Keeps (IsOpen n) (λ s w i. i) (normalized_username username))
          (λ _ s i.
            answered-IsOpen step_id (update_entry l username) (update_entry-IsOpen username)
              (validate l username password s) (validate-IsOpen username password s i))

  -- If closing a client does not raise, every step of the login flow ends with as many open clients
  -- as it started with, whether it returns or raises.
  pub steps_close_client :
      (quiet : (w : W) → (l.aclose w).0 ≡ ok tt) (input : Option (String × String))
      (s : Flow W l.Json l.Float)
      → ((step_user l input s).1.open_clients ≡ s.open_clients)
        × ((step_reauth_confirm l input s).1.open_clients ≡ s.open_clients)
        × ((step_reconfigure l input s).1.open_clients ≡ s.open_clients)
  unfolding step_reauth_confirm step_reconfigure
  steps_close_client quiet input s = (
    user-IsOpen quiet s.open_clients input s refl,
    revalidation-IsOpen quiet s.open_clients "reauth_confirm" input s refl,
    revalidation-IsOpen quiet s.open_clients "reconfigure" input s refl,
  )
