-- ===== src/Entry/Holds.antt =====
-- What a config entry holds while it is loaded and while it is not.
use danalock_ble_ha_integrat.Prelude.{
  ℕ, String, Bool, true, false, Option, some, List, [], ◌∷◌, ◌≡◌, ◌⊎◌, inl, inr, refl, arith, subst,
  sym, ◌∙◌, string_eq, nat_eq,
}
use danalock_ble_ha_integrat.Prelude.Dict.{Dict}
use danalock_ble_ha_integrat.Prelude.Errors.{Exn, ok, raised}
use danalock_ble_ha_integrat.Prelude.Hoare.{Ends, Ends-of}
use danalock_ble_ha_integrat.Pydanalock.{DeviceKey}
use danalock_ble_ha_integrat.Const.{Options}
use danalock_ble_ha_integrat.Broadcast.{Monitor, remove_first}
use danalock_ble_ha_integrat.Outside.{Outside, External}
use danalock_ble_ha_integrat.KeyManager.Timer.{new_background, Background}
use danalock_ble_ha_integrat.KeyManager.Pace
use danalock_ble_ha_integrat.KeyManager.Pace.{Reach-IsPaced}
use danalock_ble_ha_integrat.Timers.{IsSingle, IsIdle, idle-IsSingle, IsIdle-empty}
use danalock_ble_ha_integrat.Entry.{
  Surroundings, RuntimeData, Entry, remove_one, remove_stale, register_devices, RegistryDevice,
  create_devices,
}
use danalock_ble_ha_integrat.Entry.Setup.{
  on_world, opened, close_client, start_monitor, start_refresh,
}
use danalock_ble_ha_integrat.Entry.Controls.{running}

-- The monitor has no registered callback and no timer.
unfoldable pub IsOff : Monitor → Type 0
IsOff m = (m.callback_registered ≡ false) × (m.stale_timer ≡ false) × (m.refresh_timer ≡ false)

pub data Phase : Type 0 where
  unloaded loaded : Phase

-- The key refresh has no timer, and a cycle that is in flight is one of a stopped manager.
abbrev pub IsDone : Bool → Background → Type 0
IsDone flying b = IsIdle b.slot × (flying ≡ true → b.stopped ≡ true)

-- The key refresh has at most its own timer, and none while a cycle is in flight.
abbrev pub IsLive : Bool → Background → Type 0
IsLive flying b = IsSingle b.slot × (flying ≡ true → IsIdle b.slot)

-- These clients are open, the monitor is off, and the key refresh is done.
unfoldable pub HoldsClients : {W J F : Type 0} → Bool → List ℕ → Entry W J F → Type 0
HoldsClients flying cs s = (s.clients ≡ cs) × IsOff s.runtime.monitor × IsDone flying s.background

-- What an entry of the phase holds, where `flying` says that a cycle of its key manager is in flight.
-- Unloaded: no client is open, the monitor is off, the key refresh is done. Loaded: the one open
-- client is that of the runtime data, the key refresh has at most its own timer, and the monitor is
-- off unless the runtime data has it.
unfoldable pub Holds : {W J F : Type 0} → Bool → Phase → Entry W J F → Type 0
unfolding HoldsClients
Holds flying unloaded s = (s.clients ≡ []) × IsOff s.runtime.monitor × IsDone flying s.background
Holds flying loaded s =
    (d : RuntimeData) × (s.runtime_data ≡ some d)
    × (s.clients ≡ d.client ∷ [])
    × IsLive flying s.background
    × ((d.has_monitor ≡ true) ⊎ IsOff s.runtime.monitor)

pub remove_first_one : (c : ℕ) → remove_first c (c ∷ []) ≡ []
unfolding remove_first
remove_first_one c = ground arith

module _ (o : Outside) (h : Surroundings o.World) where
  abbrev pub State : Type 0
  State = Entry o.World h.Json h.Float

  -- What the registration of the devices leaves alone.
  abbrev pub Same : State → State → Type 0
  Same s t =
      (t.clients ≡ s.clients)
      × (t.background ≡ s.background)
      × (t.runtime_data ≡ s.runtime_data)
      × (t.runtime.monitor ≡ s.runtime.monitor)
      × (t.runtime.keys ≡ s.runtime.keys)

  Same-remove_one :
      (device_types : Dict String (Option String)) (d : RegistryDevice) (s : State)
      → Same s (remove_one h device_types d s)
  unfolding remove_one
  Same-remove_one device_types d s =
      (ground arith, ground arith, ground arith, ground arith, ground arith)

  Same-remove_stale :
      (device_types : Dict String (Option String)) (ds : List RegistryDevice) (s : State)
      → Same s (remove_stale h device_types ds s)
  unfolding remove_stale
  Same-remove_stale device_types [] s = (refl, refl, refl, refl, refl)
  Same-remove_stale device_types (d ∷ rest) s =
      let (clients, background, runtime_data, monitor, ks) =
        Same-remove_stale device_types rest (remove_one h device_types d s) in
      let one = Same-remove_one device_types d s in
      (clients ∙ one.0, background ∙ one.1, runtime_data ∙ one.2, monitor ∙ one.3, ks ∙ one.4)

  pub Same-register :
      (names device_types : Dict String (Option String)) (s : State)
      → Same s (register_devices h names device_types s)
  unfolding register_devices
  Same-register names device_types s =
      let w = create_devices h names device_types s.runtime.world in
      Same-remove_stale device_types (h.entry_devices w)
        (record s { runtime = record (s.runtime) { world = w } })

  pub running-Holds :
      (hex : (serial : String) → h.is_hex serial ≡ true) (options : Options)
      (ks : Dict String DeviceKey) (t : State) (d : RuntimeData)
      → t.runtime_data ≡ some d
      → t.clients ≡ d.client ∷ []
      → t.background ≡ new_background
      → IsOff t.runtime.monitor
      → Holds false loaded (running o h hex options ks t)
  unfolding Holds running start_monitor start_refresh
  running-Holds hex options [] t d has opened fresh off = (
    d,
    has,
    opened,
    subst (IsLive false) (sym fresh) (idle-IsSingle _ IsIdle-empty, λ h. absurd cc),
    inr off,
  )
  running-Holds hex options ((serial, k) ∷ ks) t d has opened fresh off = (
    record d { has_monitor = true },
    ground (arith, has),
    opened,
    ((Reach-IsPaced (Pace.started options h.draw (h.now t.runtime.world))).0, λ h. absurd cc),
    inl refl,
  )

  -- A call of the world keeps what is held, and raises what the call raises.
  pub world-Ends :
      {A : Type 0} (flying : Bool) (cs : List ℕ) (f : External o.World A) (E : Exn → Type 0)
      (s : State)
      → ((e : Exn) → (f s.runtime.world).0 ≡ raised e → E e)
      → HoldsClients flying cs s
      → Ends
          (λ _ t. HoldsClients flying cs t)
          (λ e t. HoldsClients flying cs t × E e)
          (on_world f s)
  unfolding HoldsClients
  world-Ends flying cs f E s fails held =
      Ends-of (λ _ t. HoldsClients flying cs t) (λ e t. HoldsClients flying cs t × E e)
        (on_world f s) (λ a _. held) (λ e raises. (held, fails e raises))

  module _ (closes : (w : o.World) → (h.aclose w).0 ≡ ok tt) where
    abbrev pub client_closed : ℕ → State → State
    client_closed c s = record s {
      runtime = record (s.runtime) { world = (h.aclose s.runtime.world).1 };
      clients = remove_first c s.clients;
    }

    pub close_client_lem : (c : ℕ) (s : State) → close_client o h c s ≡ (ok tt, client_closed c s)
    unfolding close_client
    close_client_lem c s = ground (arith, closes s.runtime.world)
