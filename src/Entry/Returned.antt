-- ===== src/Entry/Returned.antt =====
-- What holds after a setup that returned.
use danalock_ble_ha_integrat.Prelude.{
  ℕ, String, Bool, true, some, List, [], ◌≡◌, subst, sym, string_eq, nat_eq,
}
use danalock_ble_ha_integrat.Prelude.Dict.{Dict}
use danalock_ble_ha_integrat.Prelude.Errors.{
  Exn, ok, Action, modify, ◌>>=◌, ◌>>◌, catch, pure, >>=-ok,
}
use danalock_ble_ha_integrat.Prelude.Hoare.{Ends, Triple, Ends-of, ok_of, triple_bind}
use danalock_ble_ha_integrat.Pydanalock.{DeviceKey}
use danalock_ble_ha_integrat.Const.{Options}
use danalock_ble_ha_integrat.Outside.{Outside}
use danalock_ble_ha_integrat.Entry.{
  RuntimeData, Summary, Surroundings, register_devices, dict_of, load_tokens,
}
use danalock_ble_ha_integrat.Entry.Setup.{
  listening, on_world, new_cloud_client, fetch_account, on_fetch_error, publish, start_objects,
  set_up, async_setup_entry,
}
use danalock_ble_ha_integrat.Entry.Controls.{running, start_objects_lem}
use danalock_ble_ha_integrat.Entry.Holds.{State, Same-register}

module _ (o : Outside) (h : Surroundings o.World) where
  abbrev Anything : Exn → State o h → Type 0
  Anything e s = Unit

  ends_anyhow :
      {A : Type 0} (m : Action (State o h) A) → Triple (λ _. Unit {0}) m (λ _ _. Unit {0}) Anything
  ends_anyhow m s _ = Ends-of (λ _ _. Unit {0}) Anything (m s) (λ _ _. tt) (λ _ _. tt)

  module _ (hex : (serial : String) → h.is_hex serial ≡ true) (P : State o h → Type 0)
      (blind : (s : State o h) (w : o.World)
        → P s
        → P (record s { runtime = record (s.runtime) { world = w } }))
      (holds : (options : Options) (ks : Dict String DeviceKey) (d : RuntimeData) (s : State o h)
        → s.runtime.keys ≡ ks
        → s.runtime_data ≡ some d
        → P (running o h hex options ks s)) where
    set_up-Ends :
        (options : Options) (c : ℕ) (summaries : List Summary) (ks : Dict String DeviceKey)
        (s : State o h)
        → Ends (λ _ t. P t) Anything (set_up o h options c (summaries, ks) s)
    unfolding set_up publish
    set_up-Ends options c summaries ks s =
        let p = publish o h c summaries ks s in
        let names = dict_of (λ d. d.name) summaries [] in
        let device_types = dict_of (λ d. d.device_type) summaries [] in
        let t = register_devices h names device_types p in
        let same = Same-register o h names device_types p in
        let same_keys = same.4 in
        subst (Ends {A = Bool} (λ _ u. P u) Anything)
          (sym (
            >>=-ok (start_objects o h options ks)
              (λ _. (modify (listening o h) >> on_world h.setup_platforms) >> pure true) t tt _
              (start_objects_lem o h hex options ks t same_keys)))
          (triple_bind (λ u. P u) (λ _ u. P u) (λ _ u. P u) Anything (λ (_ : Unit {0}). pure true)
            (on_world h.setup_platforms)
            (λ u i.
              Ends-of (λ _ v. P v) Anything (on_world h.setup_platforms u)
                (λ a _. blind u (h.setup_platforms u.runtime.world).1 i) (λ e _. tt))
            (λ _ u i. i) (listening o h (running o h hex options ks t))
            (blind (running o h hex options ks t) _ (holds options ks _ t same_keys same.2)))

    setup-Ends :
        (options : Options)
        → Triple (λ _. Unit {0}) (async_setup_entry o h options) (λ _ t. P t) Anything
    unfolding async_setup_entry
    setup-Ends options s _ =
        triple_bind (λ _. Unit {0}) (λ _ _. Unit {0}) (λ _ t. P t) Anything
          (λ c. catch (fetch_account o h) (on_fetch_error o h c) >>= set_up o h options c)
          (new_cloud_client o h) (ends_anyhow (new_cloud_client o h))
          (λ c.
            triple_bind (λ _. Unit {0}) (λ _ _. Unit {0}) (λ _ t. P t) Anything
              (set_up o h options c) (catch (fetch_account o h) (on_fetch_error o h c))
              (ends_anyhow (catch (fetch_account o h) (on_fetch_error o h c)))
              (λ account t _. set_up-Ends options c account.0 account.1 t))
          (record s { tokens = load_tokens h.of_float h.float s.tokens }) tt

    -- A setup that returns leaves what the start of the runtime objects leaves.
    pub setup-returned :
        (options : Options) (b : Bool) (s : State o h)
        → (async_setup_entry o h options s).0 ≡ ok b
        → P (async_setup_entry o h options s).1
    setup-returned options b s done =
        ok_of (λ _ t. P t) Anything (async_setup_entry o h options s) b (setup-Ends options s tt)
          done
