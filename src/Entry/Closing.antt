-- ===== src/Entry/Closing.antt =====
-- What the unload releases.
use danalock_ble_ha_integrat.Prelude.{
  String, Bool, true, false, List, [], ◌∷◌, ◌≡◌, ◌⊎◌, refl, arith, ap, subst, sym, ◌∙◌, string_eq,
  nat_eq, if◌then◌else◌,
}
use danalock_ble_ha_integrat.Prelude.Errors.{Result, ok, ◌>>=◌, ◌>>◌, pure, gets, >>=-ok}
use danalock_ble_ha_integrat.Prelude.Hoare.{Ends, Triple, Ends-of, triple_bind}
use danalock_ble_ha_integrat.Pydanalock.{Bytes}
use danalock_ble_ha_integrat.Broadcast.{stop, remove_first}
use danalock_ble_ha_integrat.Outside.{Outside, Runtime, Call, disconnected, facade}
use danalock_ble_ha_integrat.KeyManager.{close}
use danalock_ble_ha_integrat.KeyManager.Refresh.{ClosesQuietly}
use danalock_ble_ha_integrat.KeyManager.Timer.{stop_background}
use danalock_ble_ha_integrat.Timers.{cancel, IsIdle, cancel-IsIdle}
use danalock_ble_ha_integrat.Entry.{Surroundings, RuntimeData}
use danalock_ble_ha_integrat.Entry.Setup.{on_runtime, on_world, close_client}
use danalock_ble_ha_integrat.Entry.Unload.{
  disconnect_all, monitor_stopped, refresh_stopped, release, release_data, async_unload_entry,
}
use danalock_ble_ha_integrat.Entry.Holds.{
  IsOff, IsLive, Phase, unloaded, loaded, Holds, remove_first_one, State, client_closed,
  close_client_lem,
}

-- The calls after the facades of these serials were disconnected.
abbrev pub disconnects : List String → (String → Bytes) → List Call → List Call
disconnects [] tokens cs = cs
disconnects (serial ∷ rest) tokens cs =
    disconnects rest tokens
      (disconnected (record { serial = serial; login_token = tokens serial }) ∷ cs)

abbrev Quietly :
    (o : Outside) → List String → Runtime o.World → Result (Unit {0}) × Runtime o.World → Type 0
Quietly o serials s x =
    (x.0 ≡ ok tt) × (x.1.monitor ≡ s.monitor) × (x.1.calls ≡ disconnects serials s.tokens s.calls)

disconnect_all_lem :
    (o : Outside) (quiet : ClosesQuietly o) (serials : List String) (s : Runtime o.World)
    → Quietly o serials s (disconnect_all o serials s)
unfolding disconnect_all close
disconnect_all_lem o quiet [] s = (refl, refl, refl)
disconnect_all_lem o quiet (serial ∷ rest) s =
    subst (Quietly o (serial ∷ rest) s)
      (sym (
        >>=-ok (close o serial) (λ _. disconnect_all o rest) s tt (close o serial s).1
          (ground (arith, quiet (facade serial s) s.world))))
      (disconnect_all_lem o quiet rest (close o serial s).1)

-- The phase after an unload that returned.
abbrev pub after_unload : Bool → Phase
after_unload true = unloaded
after_unload false = loaded

module _ (o : Outside) (h : Surroundings o.World) (quiet : ClosesQuietly o)
    (closes : (w : o.World) → (h.aclose w).0 ≡ ok tt) (flying : Bool) where
  abbrev stopped_all : RuntimeData → State o h → State o h
  stopped_all d s = refresh_stopped o h (monitor_stopped o h d s)

  abbrev disconnected_all : State o h → State o h
  disconnected_all s = record s { runtime = (disconnect_all o s.runtime.controls s.runtime).1 }

  release_lem :
      (d : RuntimeData) (s : State o h)
      → release o h d s
        ≡ (ok tt, client_closed o h closes d.client (disconnected_all (stopped_all d s)))
  unfolding release
  release_lem d s =
      let m = stopped_all d s in
      >>=-ok (on_runtime (disconnect_all o m.runtime.controls)) (λ _. close_client o h d.client) m
        tt (disconnected_all m)
        (ground (arith, (disconnect_all_lem o quiet m.runtime.controls m.runtime).0))
      ∙ close_client_lem o h closes d.client (disconnected_all m)

  monitor-IsOff :
      (d : RuntimeData) (s : State o h)
      → (d.has_monitor ≡ true) ⊎ IsOff s.runtime.monitor
      → IsOff (monitor_stopped o h d s).runtime.monitor
  unfolding IsOff stop
  monitor-IsOff d s off = ground (arith, off)

  stopped_background :
      (d : RuntimeData) (s : State o h) → s.background ≡ (monitor_stopped o h d s).background
  stopped_background d s = ground arith

  released-Holds :
      (d : RuntimeData) (s : State o h)
      → s.clients ≡ d.client ∷ []
      → IsLive flying s.background
      → (d.has_monitor ≡ true) ⊎ IsOff s.runtime.monitor
      → Holds flying unloaded
          (client_closed o h closes d.client (disconnected_all (stopped_all d s)))
  unfolding Holds stop_background
  released-Holds d s clients single monitor = (
    ap (remove_first d.client) (ground (arith, clients)) ∙ remove_first_one d.client,
    subst IsOff
        (sym
          (disconnect_all_lem o quiet (stopped_all d s).runtime.controls
            (stopped_all d s).runtime).1)
        (monitor-IsOff d s monitor),
    (
      subst (λ b. IsIdle (cancel b.slot)) (stopped_background d s)
          (cancel-IsIdle s.background.slot single.0),
      λ _. refl,
    ),
  )

  -- The part of the unload behind the platforms.
  finish-Holds :
      (unload_ok : Bool)
      → Triple
          (Holds flying loaded)
          (do
            data_now ← gets (λ (s : State o h). s.runtime_data)
            if unload_ok then (do release_data o h data_now; pure true) else pure false)
          (λ r t. Holds flying (after_unload r) t)
          (λ _ t. Holds flying loaded t)
  unfolding Holds release_data
  finish-Holds false s held = held
  finish-Holds true s (d, has, clients, single, monitor) =
      subst
        (λ x.
          Ends {A = Bool} (λ r t. Holds flying (after_unload r) t) (λ _ t. Holds flying loaded t)
            ((release_data o h x >> pure true) s))
        (sym has)
        (subst
          (Ends {A = Bool} (λ r t. Holds flying (after_unload r) t) (λ _ t. Holds flying loaded t))
          (sym (>>=-ok (release o h d) (λ _. pure true) s tt _ (release_lem d s)))
          (released-Holds d s clients single monitor))

  -- `async_unload_entry` takes a loaded entry to an unloaded one if it returns true, and leaves it
  -- loaded if the platforms refuse.
  pub unload-Holds :
      Triple
        (Holds flying loaded)
        (async_unload_entry o h)
        (λ r t. Holds flying (after_unload r) t)
        (λ _ t. Holds flying loaded t)
  unfolding async_unload_entry Holds
  unload-Holds =
      triple_bind (Holds flying loaded) (λ _ t. Holds flying loaded t)
        (λ r t. Holds flying (after_unload r) t) (λ _ t. Holds flying loaded t)
        (λ (unload_ok : Bool). do
          data_now ← gets (λ (s : State o h). s.runtime_data)
          if unload_ok then (do release_data o h data_now; pure true) else pure false)
        (on_world h.unload_platforms)
        (λ s held.
          Ends-of (λ _ t. Holds flying loaded t) (λ _ t. Holds flying loaded t)
            (on_world h.unload_platforms s) (λ a _. held) (λ e _. held))
        finish-Holds
