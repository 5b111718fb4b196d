-- ===== src/Entry/Opening.antt =====
-- What the setup opens, and what it closes when it fails.
use danalock_ble_ha_integrat.Prelude.{
  ℕ, String, Bool, true, false, List, [], ◌∷◌, ◌≡◌, arith, ap, subst, sym, ◌∙◌, string_eq, nat_eq,
}
use danalock_ble_ha_integrat.Prelude.Dict.{Dict, insert}
use danalock_ble_ha_integrat.Prelude.Errors.{
  Exn, ok, raised, ◌>>=◌, ◌>>◌, catch, pure, modify, raise, auth_error, cloud_error, http_error,
  is_cloud_failure, >>=-ok, config_entry_auth_failed, config_entry_not_ready,
}
use danalock_ble_ha_integrat.Prelude.Hoare.{Ends, Triple, Ends-of, triple_bind, triple_catch}
use danalock_ble_ha_integrat.Pydanalock.{DeviceKey}
use danalock_ble_ha_integrat.Const.{Options}
use danalock_ble_ha_integrat.Broadcast.{remove_first}
use danalock_ble_ha_integrat.Outside.{Outside, fetched}
use danalock_ble_ha_integrat.KeyManager.{outgoing}
use danalock_ble_ha_integrat.KeyManager.Refresh.{FailsAsCloud}
use danalock_ble_ha_integrat.Entry.{
  Summary, Surroundings, register_devices, supported, load_tokens, dict_of,
}
use danalock_ble_ha_integrat.Entry.Setup.{
  listening, on_runtime, on_world, opened, new_cloud_client, close_client, fetch_keys,
  fetch_account, on_fetch_error, publish, start_objects, set_up, async_setup_entry,
}
use danalock_ble_ha_integrat.Entry.Controls.{running, start_objects_lem}
use danalock_ble_ha_integrat.Entry.Holds.{
  IsOff, unloaded, loaded, HoldsClients, Holds, remove_first_one, State, Same-register,
  running-Holds, world-Ends, client_closed, close_client_lem,
}

module _ (o : Outside) (h : Surroundings o.World) (flying : Bool) where
  abbrev Cloud : Exn → Type 0
  Cloud e = is_cloud_failure e ≡ true

  module _ (fails : FailsAsCloud o)
      (devices_fail : (w : o.World) (e : Exn)
        → (h.devices w).0 ≡ raised e
        → is_cloud_failure e ≡ true) where
    fetch_keys-Holds :
        (c : List ℕ) (summaries : List Summary) (ks : Dict String DeviceKey)
        → Triple
            (HoldsClients flying c)
            (fetch_keys o h summaries ks)
            (λ _ t. HoldsClients flying c t)
            (λ e t. HoldsClients flying c t × Cloud e)
    unfolding fetch_keys HoldsClients
    fetch_keys-Holds c [] ks = λ s held. held
    fetch_keys-Holds c (d ∷ rest) ks =
        triple_bind (HoldsClients flying c) (λ _ t. HoldsClients flying c t)
          (λ _ t. HoldsClients flying c t) (λ e t. HoldsClients flying c t × Cloud e)
          (λ k. fetch_keys o h rest (insert d.serial k ks))
          (on_runtime (outgoing (fetched d.serial false) (o.get_key d.serial false)))
          (λ s held.
            Ends-of (λ _ t. HoldsClients flying c t) (λ e t. HoldsClients flying c t × Cloud e)
              (on_runtime (outgoing (fetched d.serial false) (o.get_key d.serial false)) s)
              (λ a _. held) (λ e raises. (held, fails d.serial false s.runtime.world e raises)))
          (λ k. fetch_keys-Holds c rest (insert d.serial k ks))

    fetch_account-Holds :
        (c : List ℕ)
        → Triple
            (HoldsClients flying c)
            (fetch_account o h)
            (λ _ t. HoldsClients flying c t)
            (λ e t. HoldsClients flying c t × Cloud e)
    unfolding fetch_account
    fetch_account-Holds c =
        triple_bind (HoldsClients flying c) (λ _ t. HoldsClients flying c t)
          (λ _ t. HoldsClients flying c t) (λ e t. HoldsClients flying c t × Cloud e)
          (λ summaries. do ks ← fetch_keys o h (supported summaries) []; pure (summaries, ks))
          (on_world h.devices)
          (λ s. world-Ends o h flying c h.devices Cloud s (devices_fail s.runtime.world))
          (λ summaries.
            triple_bind (HoldsClients flying c) (λ _ t. HoldsClients flying c t)
              (λ _ t. HoldsClients flying c t) (λ e t. HoldsClients flying c t × Cloud e)
              (λ ks. pure (summaries, ks)) (fetch_keys o h (supported summaries) [])
              (fetch_keys-Holds c (supported summaries) []) (λ ks s held. held))

    module _ (closes : (w : o.World) → (h.aclose w).0 ≡ ok tt) where
      closed-Holds :
          (c : ℕ) (s : State o h)
          → HoldsClients flying (c ∷ []) s
          → Holds flying unloaded (client_closed o h closes c s)
      unfolding HoldsClients Holds
      closed-Holds c s held = (ap (remove_first c) held.0 ∙ remove_first_one c, held.1, held.2)

      close_and_raise :
          (c : ℕ) (e : Exn) (s : State o h)
          → HoldsClients flying (c ∷ []) s
          → Ends {A = List Summary × Dict String DeviceKey}
              (λ _ t. HoldsClients flying (c ∷ []) t)
              (λ _ t. Holds flying unloaded t)
              ((close_client o h c >> raise e) s)
      close_and_raise c e s held =
          subst
            (Ends {A = List Summary × Dict String DeviceKey} (λ _ t. HoldsClients flying (c ∷ []) t)
              (λ _ t. Holds flying unloaded t))
            (sym (
              >>=-ok (close_client o h c) (λ _. raise e) s tt (client_closed o h closes c s)
                (close_client_lem o h closes c s)))
            (closed-Holds c s held)

      -- The `except` clauses close the client.
      on_fetch_error-Holds :
          (c : ℕ) (e : Exn)
          → Triple
              (λ t. HoldsClients flying (c ∷ []) t × Cloud e)
              (on_fetch_error o h c e)
              (λ _ t. HoldsClients flying (c ∷ []) t)
              (λ _ t. Holds flying unloaded t)
      unfolding on_fetch_error
      on_fetch_error-Holds c (auth_error m) s (held, cloud) =
          close_and_raise c (config_entry_auth_failed m) s held
      on_fetch_error-Holds c (cloud_error m) s (held, cloud) =
          close_and_raise c (config_entry_not_ready m) s held
      on_fetch_error-Holds c (http_error m) s (held, cloud) =
          close_and_raise c (config_entry_not_ready m) s held
      on_fetch_error-Holds c e s (held, cloud) = absurd cc

      -- The part of the setup that may fail for the cloud.
      account-Holds :
          (c : ℕ)
          → Triple
              (HoldsClients flying (c ∷ []))
              (catch (fetch_account o h) (on_fetch_error o h c))
              (λ _ t. HoldsClients flying (c ∷ []) t)
              (λ _ t. Holds flying unloaded t)
      account-Holds c =
          triple_catch (HoldsClients flying (c ∷ [])) (λ _ t. HoldsClients flying (c ∷ []) t)
            (λ e t. HoldsClients flying (c ∷ []) t × Cloud e) (λ _ t. Holds flying unloaded t)
            (on_fetch_error o h c) (fetch_account o h) (fetch_account-Holds (c ∷ []))
            (on_fetch_error-Holds c)

      module _ (hex : (serial : String) → h.is_hex serial ≡ true)
          (platforms : (w : o.World) → (h.setup_platforms w).0 ≡ ok tt) where
        listening-Holds :
            (t : State o h) → Holds false loaded t → Holds false loaded (listening o h t)
        unfolding Holds
        listening-Holds t held = held

        platforms-Ends :
            (t : State o h)
            → Holds false loaded t
            → Ends {A = Bool}
                (λ _ u. Holds false loaded u)
                (λ _ u. Holds flying unloaded u)
                ((on_world h.setup_platforms >> pure true) t)
        unfolding Holds
        platforms-Ends t held =
            let u = record t {
              runtime = record (t.runtime) { world = (h.setup_platforms t.runtime.world).1 };
            } in
            subst (Ends {A = Bool} (λ _ v. Holds false loaded v) (λ _ v. Holds flying unloaded v))
              (sym (
                >>=-ok (on_world h.setup_platforms) (λ _. pure true) t tt u
                  (ground (arith, platforms t.runtime.world))))
              held

        -- Behind the fetch, the setup returns and the entry is loaded.
        set_up-Holds :
            (options : Options) (c : ℕ) (summaries : List Summary) (ks : Dict String DeviceKey)
            (s : State o h)
            → HoldsClients flying (c ∷ []) s
            → Ends
                (λ _ t. Holds false loaded t)
                (λ _ t. Holds flying unloaded t)
                (set_up o h options c (summaries, ks) s)
        unfolding set_up publish HoldsClients
        set_up-Holds options c summaries ks s held =
            let p = publish o h c summaries ks s in
            let names = dict_of (λ d. d.name) summaries [] in
            let device_types = dict_of (λ d. d.device_type) summaries [] in
            let t = register_devices h names device_types p in
            let (clients, background, runtime_data, monitor, same_keys) =
              Same-register o h names device_types p in
            subst (Ends {A = Bool} (λ _ v. Holds false loaded v) (λ _ v. Holds flying unloaded v))
              (sym (
                >>=-ok (start_objects o h options ks)
                  (λ _. (modify (listening o h) >> on_world h.setup_platforms) >> pure true) t tt _
                  (start_objects_lem o h hex options ks t same_keys)))
              (platforms-Ends (listening o h (running o h hex options ks t)) (
                listening-Holds (running o h hex options ks t) (
                  running-Holds o h hex options ks t _ runtime_data (clients ∙ held.0) background
                    (subst IsOff (sym monitor) held.1))))

        new_client-Holds :
            Triple
              (HoldsClients flying [])
              (new_cloud_client o h)
              (λ c t. HoldsClients flying (c ∷ []) t)
              (λ _ t. Holds flying unloaded t)
        unfolding new_cloud_client HoldsClients Holds
        new_client-Holds =
            triple_bind (HoldsClients flying []) (λ _ t. HoldsClients flying [] t)
              (λ c t. HoldsClients flying (c ∷ []) t) (λ _ t. Holds flying unloaded t)
              (λ (_ : Unit {0}). opened o h) (on_world h.new_client)
              (λ s held.
                Ends-of (λ _ t. HoldsClients flying [] t) (λ _ t. Holds flying unloaded t)
                  (on_world h.new_client s) (λ a _. held) (λ e _. held))
              (λ a s held. (ap (λ cs. s.next_client ∷ cs) held.0, held.1, held.2))

        -- `async_setup_entry` takes an unloaded entry to a loaded one if it returns, and leaves it
        -- unloaded if it raises.
        pub setup-Holds :
            (options : Options)
            → Triple
                (Holds flying unloaded)
                (async_setup_entry o h options)
                (λ _ t. Holds false loaded t)
                (λ _ t. Holds flying unloaded t)
        unfolding async_setup_entry HoldsClients Holds
        setup-Holds options s held =
            triple_bind (HoldsClients flying []) (λ c t. HoldsClients flying (c ∷ []) t)
              (λ _ t. Holds false loaded t) (λ _ t. Holds flying unloaded t)
              (λ c. catch (fetch_account o h) (on_fetch_error o h c) >>= set_up o h options c)
              (new_cloud_client o h) new_client-Holds
              (λ c.
                triple_bind (HoldsClients flying (c ∷ [])) (λ _ t. HoldsClients flying (c ∷ []) t)
                  (λ _ t. Holds false loaded t) (λ _ t. Holds flying unloaded t)
                  (set_up o h options c) (catch (fetch_account o h) (on_fetch_error o h c))
                  (account-Holds c) (λ account t. set_up-Holds options c account.0 account.1 t))
              (record s { tokens = load_tokens h.of_float h.float s.tokens }) held
