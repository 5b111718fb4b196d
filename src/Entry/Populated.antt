-- ===== src/Entry/Populated.antt =====
-- The devices, the keys and the controls of an entry that was set up belong together.
use danalock_ble_ha_integrat.Prelude.{
  String, Bool, true, List, [], ◌∷◌, ◌≡◌, ◌≢◌, some, refl, arith, ap, sym, ◌∙◌, string_eq, ◌*◌,
}
use danalock_ble_ha_integrat.Prelude.Dict.{Dict, keys, tabulate}
use danalock_ble_ha_integrat.Prelude.Errors.{ok}
use danalock_ble_ha_integrat.Pydanalock.{DeviceKey}
use danalock_ble_ha_integrat.Const.{Options}
use danalock_ble_ha_integrat.Broadcast.{start, new_monitor, new_device}
use danalock_ble_ha_integrat.Outside.{Outside}
use danalock_ble_ha_integrat.Entry.{RuntimeData, Surroundings, Entry}
use danalock_ble_ha_integrat.Entry.Setup.{start_monitor, start_refresh, async_setup_entry}
use danalock_ble_ha_integrat.Entry.Controls.{running}
use danalock_ble_ha_integrat.Entry.Holds.{State}
use danalock_ble_ha_integrat.Entry.Returned.{setup-returned}
use danalock_ble_ha_integrat.Platforms.{Platform, NewEntity, setup_platform, suffixes}
use danalock_ble_ha_integrat.Platforms.Once.{count, count_id, setup_platform-count}

-- If there is a key, the runtime data has the monitor, and the monitor has a device and the key
-- manager a control for each key.
abbrev pub IsPopulated : {W J F : Type 0} → Entry W J F → Type 0
IsPopulated s =
    keys s.runtime.keys ≢ []
    → (keys s.runtime.monitor.devices ≡ keys s.runtime.keys)
      × (s.runtime.controls ≡ keys s.runtime.keys)
      × (d : RuntimeData) × (s.runtime_data ≡ some d)
      × (d.has_monitor ≡ true)

keys-tabulate : {V : Type 0} (f : String → V) (ks : List String) → keys (tabulate f ks) ≡ ks
keys-tabulate f [] = refl
keys-tabulate f (k ∷ ks) = ap (λ js. k ∷ js) (keys-tabulate f ks)

module _ (o : Outside) (h : Surroundings o.World)
    (hex : (serial : String) → h.is_hex serial ≡ true) where
  running-IsPopulated :
      (options : Options) (ks : Dict String DeviceKey) (d : RuntimeData) (s : State o h)
      → s.runtime.keys ≡ ks
      → s.runtime_data ≡ some d
      → IsPopulated (running o h hex options ks s)
  unfolding running start_monitor start_refresh start new_monitor
  running-IsPopulated options [] d s same has = λ some_key. absurd (some_key (ap keys same))
  running-IsPopulated options ((serial, k) ∷ ks) d s same has = λ some_key. (
    keys-tabulate new_device (serial ∷ keys ks) ∙ sym (ap keys same),
    sym (ap keys same),
    record d { has_monitor = true },
    ground (arith, has),
    refl,
  )

  -- After a setup that returns with a key, the runtime data has the monitor, so every platform adds its entities without a KeyError, and
  -- of each serial and suffix as many as the number of times the serial is among the keys times that
  -- of the suffix among the platform's suffixes.
  pub setup-entities :
      (options : Options) (b : Bool) (p : Platform) (serial suffix : String) (s : State o h)
      → (async_setup_entry o h options s).0 ≡ ok b
      → keys (async_setup_entry o h options s).1.runtime.keys ≢ []
      → let t = (async_setup_entry o h options s).1 in
        (d : RuntimeData) × (t.runtime_data ≡ some d)
        × (es : List NewEntity) × (setup_platform p d.has_monitor t.runtime ≡ some es)
        × (count_id serial suffix es
            ≡ count serial (keys t.runtime.keys) * count suffix (suffixes p))
  setup-entities options b p serial suffix s done some_key =
      let t = (async_setup_entry o h options s).1 in
      let (devices, controls, d, has, monitored) =
        setup-returned o h hex (λ t. IsPopulated t) (λ s w i. i) running-IsPopulated options b s
          done some_key in
      let (es, made, counted) = setup_platform-count p serial suffix t.runtime devices controls in
      (d, has, es, ap (λ m. setup_platform p m t.runtime) monitored ∙ made, counted)
