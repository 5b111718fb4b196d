-- ===== src/Entry/Account.antt =====
-- What a setup makes of the account, and what an unexpected exception leaves open.
use danalock_ble_ha_integrat.Prelude.{
  ℕ, String, Bool, true, false, some, List, [], ◌∷◌, ◌≡◌, refl, arith, ap, ◌∙◌, string_eq, nat_eq,
}
use danalock_ble_ha_integrat.Prelude.Dict.{Dict, insert}
use danalock_ble_ha_integrat.Prelude.Errors.{
  Exn, ok, raised, Action, ◌>>=◌, catch, caught, pure, >>=-ok, >>=-raised, auth_error, cloud_error,
  http_error, is_cloud_failure,
}
use danalock_ble_ha_integrat.Prelude.Hoare.{Triple, Ends-of, ok_of, triple_bind, Keeps, Keeps-bind}
use danalock_ble_ha_integrat.Pydanalock.{DeviceKey}
use danalock_ble_ha_integrat.Const.{Options}
use danalock_ble_ha_integrat.Outside.{Outside, Call, fetched}
use danalock_ble_ha_integrat.KeyManager.{outgoing}
use danalock_ble_ha_integrat.KeyManager.Coherence.{IsCoherent}
use danalock_ble_ha_integrat.KeyManager.Timer.{stop_background}
use danalock_ble_ha_integrat.Entry.{Summary, Surroundings, RuntimeData, load_tokens, supported}
use danalock_ble_ha_integrat.Entry.Setup.{
  on_runtime, on_world, new_cloud_client, fetch_keys, fetch_account, on_fetch_error, set_up,
  async_setup_entry,
}
use danalock_ble_ha_integrat.Entry.Unload.{
  disconnect_all, monitor_stopped, refresh_stopped, release, release_data, async_unload_entry,
}
use danalock_ble_ha_integrat.Entry.Controls.{running-IsCoherent}
use danalock_ble_ha_integrat.Entry.Returned.{setup-returned}
use danalock_ble_ha_integrat.Entry.Holds.{State}

-- The calls after the keys of these devices were fetched, without force.
abbrev pub fetches_of : List Summary → List Call → List Call
fetches_of [] cs = cs
fetches_of (d ∷ rest) cs = fetches_of rest (fetched d.serial false ∷ cs)

module _ (o : Outside) (h : Surroundings o.World) where
  abbrev Called : List Call → State o h → Type 0
  Called cs s = s.runtime.calls ≡ cs

  abbrev Anything : Exn → State o h → Type 0
  Anything e s = Unit

  ends_anyhow :
      {A : Type 0} (m : Action (State o h) A) → Triple (λ _. Unit {0}) m (λ _ _. Unit {0}) Anything
  ends_anyhow m s _ = Ends-of (λ _ _. Unit {0}) Anything (m s) (λ _ _. tt) (λ _ _. tt)

  fetch_keys-calls :
      (summaries : List Summary) (ks : Dict String DeviceKey) (cs : List Call)
      → Triple
          (Called cs)
          (fetch_keys o h summaries ks)
          (λ _. Called (fetches_of summaries cs))
          Anything
  unfolding fetch_keys
  fetch_keys-calls [] ks cs = λ s called. called
  fetch_keys-calls (d ∷ rest) ks cs =
      triple_bind (Called cs) (λ _. Called (fetched d.serial false ∷ cs))
        (λ _. Called (fetches_of (d ∷ rest) cs)) Anything
        (λ k. fetch_keys o h rest (insert d.serial k ks))
        (on_runtime (outgoing (fetched d.serial false) (o.get_key d.serial false)))
        (λ s called.
          Ends-of (λ _. Called (fetched d.serial false ∷ cs)) Anything
            (on_runtime (outgoing (fetched d.serial false) (o.get_key d.serial false)) s)
            (λ a _. ap (λ l. fetched d.serial false ∷ l) called) (λ e _. tt))
        (λ k. fetch_keys-calls rest (insert d.serial k ks) (fetched d.serial false ∷ cs))

  account-calls :
      (cs : List Call)
      → Triple
          (Called cs)
          (fetch_account o h)
          (λ account. Called (fetches_of (supported account.0) cs))
          Anything
  unfolding fetch_account
  account-calls cs =
      triple_bind (Called cs) (λ _. Called cs)
        (λ account. Called (fetches_of (supported account.0) cs)) Anything
        (λ summaries. do ks ← fetch_keys o h (supported summaries) []; pure (summaries, ks))
        (on_world h.devices)
        (λ s called.
          Ends-of (λ _. Called cs) Anything (on_world h.devices s) (λ a _. called) (λ e _. tt))
        (λ summaries.
          triple_bind (Called cs) (λ _. Called (fetches_of (supported summaries) cs))
            (λ account. Called (fetches_of (supported account.0) cs)) Anything
            (λ ks. pure (summaries, ks)) (fetch_keys o h (supported summaries) [])
            (fetch_keys-calls (supported summaries) [] cs) (λ ks s called. called))

  -- The fetch of the account, if it returns, has fetched one key for each device whose type is
  -- supported or not given, in the order of the account and without force, and none for another.
  pub fetch_account-calls :
      (s : State o h) (summaries : List Summary) (ks : Dict String DeviceKey)
      → (fetch_account o h s).0 ≡ ok (summaries, ks)
      → (fetch_account o h s).1.runtime.calls ≡ fetches_of (supported summaries) s.runtime.calls
  fetch_account-calls s summaries ks done =
      ok_of (λ account. Called (fetches_of (supported account.0) s.runtime.calls)) Anything
        (fetch_account o h s) (summaries, ks) (account-calls s.runtime.calls s refl) done

  fetch_keys-clients :
      (cs : List ℕ) (summaries : List Summary) (ks : Dict String DeviceKey)
      → Keeps (λ (s : State o h). s.clients ≡ cs) (fetch_keys o h summaries ks)
  unfolding fetch_keys
  fetch_keys-clients cs [] ks = λ s same. same
  fetch_keys-clients cs (d ∷ rest) ks =
      Keeps-bind (λ (s : State o h). s.clients ≡ cs)
        (on_runtime (outgoing (fetched d.serial false) (o.get_key d.serial false)))
        (λ k. fetch_keys o h rest (insert d.serial k ks)) (λ s same. same)
        (λ k. fetch_keys-clients cs rest (insert d.serial k ks))

  fetch_account-clients :
      (cs : List ℕ) → Keeps (λ (s : State o h). s.clients ≡ cs) (fetch_account o h)
  unfolding fetch_account
  fetch_account-clients cs =
      Keeps-bind (λ (s : State o h). s.clients ≡ cs) (on_world h.devices)
        (λ summaries. do ks ← fetch_keys o h (supported summaries) []; pure (summaries, ks))
        (λ s same. same)
        (λ summaries.
          Keeps-bind (λ (s : State o h). s.clients ≡ cs) (fetch_keys o h (supported summaries) [])
            (λ ks. pure (summaries, ks)) (fetch_keys-clients cs (supported summaries) [])
            (λ ks s same. same))

  on_fetch_error_passes :
      (c : ℕ) (e : Exn) (s : State o h)
      → is_cloud_failure e ≡ false
      → on_fetch_error o h c e s ≡ (raised e, s)
  unfolding on_fetch_error
  on_fetch_error_passes c (auth_error m) s unexpected = absurd cc
  on_fetch_error_passes c (cloud_error m) s unexpected = absurd cc
  on_fetch_error_passes c (http_error m) s unexpected = absurd cc
  on_fetch_error_passes c e s unexpected = refl

  -- The entry after the setup opened its client.
  abbrev pub client_opened : State o h → State o h
  client_opened s =
      (new_cloud_client o h (record s { tokens = load_tokens h.of_float h.float s.tokens })).1

  client_opened_lem :
      (s : State o h)
      → (h.new_client s.runtime.world).0 ≡ ok tt
      → (new_cloud_client o h (record s { tokens = load_tokens h.of_float h.float s.tokens })
          ≡ (ok s.next_client, client_opened s))
        × ((client_opened s).clients ≡ s.next_client ∷ s.clients)
  unfolding new_cloud_client
  client_opened_lem s opens =
      (ap (λ r. (r, client_opened s)) (ground (arith, opens)), ground (arith, opens))

  -- If the list of devices or the fetch of a key raises anything but a cloud or network error, the setup
  -- raises it and the client that it opened stays open.
  pub setup_leaks_client :
      (options : Options) (e : Exn) (s : State o h)
      → (h.new_client s.runtime.world).0 ≡ ok tt
      → (fetch_account o h (client_opened s)).0 ≡ raised e
      → is_cloud_failure e ≡ false
      → let (r, t) = async_setup_entry o h options s in
        (r ≡ raised e) × (t.clients ≡ s.next_client ∷ s.clients)
  unfolding async_setup_entry
  setup_leaks_client options e s opens fails unexpected =
      let c = s.next_client in
      let t = client_opened s in
      let u = (fetch_account o h t).1 in
      let (opened_client, one) = client_opened_lem s opens in
      let leaves =
        >>=-ok (new_cloud_client o h)
          (λ c. catch (fetch_account o h) (on_fetch_error o h c) >>= set_up o h options c)
          (record s { tokens = load_tokens h.of_float h.float s.tokens }) c t opened_client
        ∙ >>=-raised (catch (fetch_account o h) (on_fetch_error o h c)) (set_up o h options c) t e u
            (ap (caught (on_fetch_error o h c)) (ap (λ r. (r, u)) fails)
              ∙ on_fetch_error_passes c e u unexpected) in
      (
        ap (λ x. x.0) leaves,
        ap (λ x. x.1.clients) leaves ∙ fetch_account-clients (c ∷ s.clients) t one,
      )

  -- The entry when the unload begins to disconnect its controls.
  abbrev pub unload_stopped : RuntimeData → State o h → State o h
  unload_stopped d s = refresh_stopped o h (
      monitor_stopped o h d (record s {
        runtime = record (s.runtime) { world = (h.unload_platforms s.runtime.world).1 };
      }))

  -- If the disconnect of one of the controls raises, the unload raises it: the key refresh is stopped, but
  -- the client stays open.
  pub unload_leaks_client :
      (e : Exn) (d : RuntimeData) (s : State o h)
      → (h.unload_platforms s.runtime.world).0 ≡ ok true
      → s.runtime_data ≡ some d
      → (let m = (unload_stopped d s).runtime in (disconnect_all o m.controls m).0 ≡ raised e)
      → let (r, t) = async_unload_entry o h s in
        (r ≡ raised e) × (t.clients ≡ s.clients) × (t.background.stopped ≡ true)
  unfolding async_unload_entry release_data release stop_background
  unload_leaks_client e d s allowed has fails = (
    ground (arith, allowed, has, fails),
    ground (arith, allowed, has, fails),
    ground (arith, allowed, has, fails),
  )

  -- A setup that returns leaves every control's facade with the token of its key.
  pub setup-IsCoherent :
      (hex : (serial : String) → h.is_hex serial ≡ true) (options : Options) (b : Bool)
      (s : State o h)
      → (async_setup_entry o h options s).0 ≡ ok b
      → IsCoherent (async_setup_entry o h options s).1.runtime
  setup-IsCoherent hex =
      setup-returned o h hex (λ t. IsCoherent t.runtime) (λ s w i. i)
        (λ options ks d s same has. running-IsCoherent o h hex options ks s same)
