-- ===== src/Entry/Lifecycle.antt =====
-- Setup, unload and the handlers of an entry as one lifecycle, against the machine of its two phases.
use danalock_ble_ha_integrat.Prelude.{
  ℕ, String, Bool, true, false, none, ◌≡◌, ◌≢◌, ◌⊎◌, inl, inr, refl, ap, subst, ◌∙◌, string_eq,
  nat_eq, Bool-cases, ltb,
}
use danalock_ble_ha_integrat.Prelude.Dict.{lookup}
use danalock_ble_ha_integrat.Prelude.Errors.{Exn, Result, ok, raised, is_cloud_failure}
use danalock_ble_ha_integrat.Prelude.Hoare.{Ends}
use danalock_ble_ha_integrat.Const.{Options}
use danalock_ble_ha_integrat.Broadcast.{Monitor}
use danalock_ble_ha_integrat.Outside.{Outside, Runtime}
use danalock_ble_ha_integrat.KeyManager.Refresh.{ClosesQuietly, FailsAsCloud}
use danalock_ble_ha_integrat.KeyManager.Timer.{
  Background, begin_background, end_background, schedule_next,
}
use danalock_ble_ha_integrat.Timers.{
  expire, expire-IsIdle, arm-IsSingle, idle-IsSingle, idle-lookup,
}
use danalock_ble_ha_integrat.Entry.{Surroundings, Entry}
use danalock_ble_ha_integrat.Entry.Setup.{async_setup_entry}
use danalock_ble_ha_integrat.Entry.Unload.{async_unload_entry}
use danalock_ble_ha_integrat.Entry.Holds.{
  IsOff, IsDone, IsLive, Phase, unloaded, loaded, Holds, State,
}
use danalock_ble_ha_integrat.Entry.Opening.{setup-Holds}
use danalock_ble_ha_integrat.Entry.Closing.{after_unload, unload-Holds}
use danalock_ble_ha_integrat.Entry.Handlers.{Handled}
use danalock_ble_ha_integrat.Entry.Registered.{Handled-registered, registered}

-- The phase after a setup, by how it ended.
abbrev pub setup_phase : Result Bool → Phase
setup_phase (ok b) = loaded
setup_phase (raised e) = unloaded

-- The phase after an unload.
abbrev pub unload_phase : Result Bool → Phase
unload_phase (ok b) = after_unload b
unload_phase (raised e) = loaded

-- A setup that returned has made a new key manager, which no cycle is in flight of.
abbrev pub setup_flying : Bool → Result Bool → Bool
setup_flying flying (ok b) = false
setup_flying flying (raised e) = flying

-- An entry with its phase and a flag that a cycle of its key manager is in flight.
pub record Alive (o : Outside) (h : Surroundings o.World) : Type 0 where
  pub entry : State o h
  pub phase : Phase
  pub flying : Bool

abbrev with_runtime : {W J F : Type 0} → Runtime W → Entry W J F → Entry W J F
with_runtime r s = record s { runtime = r }

abbrev with_background : {W J F : Type 0} → Background → Entry W J F → Entry W J F
with_background b s = record s { background = b }

-- What can happen to an entry: Home Assistant sets it up or unloads it, a handler runs on its runtime
-- objects, and the timer of the key refresh fires or the refresh of all keys that it started ends,
-- also after the unload. The refresh of each key is a handler between the two.
pub data Step (o : Outside) (h : Surroundings o.World) (s t : Alive o h) : Type 0 where
  sets_up :
      (options : Options)
      → s.phase ≡ unloaded
      → (let (r, entry) = async_setup_entry o h options s.entry in
          t ≡ record { entry = entry; phase = setup_phase r; flying = setup_flying s.flying r })
      → Step o h s t
  unloads :
      s.phase ≡ loaded
      → (let (r, entry) = async_unload_entry o h s.entry in
          t ≡ record s { entry = entry; phase = unload_phase r })
      → Step o h s t
  handles :
      (r : Runtime o.World)
      → Handled o s.entry.runtime r
      → t ≡ record s { entry = with_runtime r s.entry }
      → Step o h s t
  fires :
      (timer : ℕ)
      → lookup timer s.entry.background.slot.live ≢ none
      → (let b = s.entry.background in
          t ≡ record s {
            entry =
                with_background
                  (begin_background (record b { slot = expire timer b.slot }))
                  s.entry;
            flying = true;
          })
      → Step o h s t
  ends :
      (now : ℕ) (r : Result (Unit {0}))
      → s.flying ≡ true
      → t ≡ record s {
        entry = with_background (end_background h.draw now r s.entry.background).1 s.entry;
        flying = false;
      }
      → Step o h s t

-- The runs of an entry that starts unloaded.
pub data Run (o : Outside) (h : Surroundings o.World) : Alive o h → Type 0 where
  created :
      {s : State o h}
      → Holds false unloaded s
      → Run o h (record { entry = s; phase = unloaded; flying = false })
  next : {s t : Alive o h} → Run o h s → Step o h s t → Run o h t

abbrev IsHeld : {o : Outside} {h : Surroundings o.World} → Alive o h → Type 0
IsHeld s = Holds s.flying s.phase s.entry

registered-IsOff : (m n : Monitor) → registered n ≡ registered m → IsOff m → IsOff n
unfolding IsOff
registered-IsOff m n same (callback, stale, refresh) =
    (ap (λ r. r.0) same ∙ callback, ap (λ r. r.1) same ∙ stale, ap (λ r. r.2) same ∙ refresh)

ended-IsDone :
    (draw : ℕ → ℕ) (now : ℕ) (r : Result (Unit {0})) (b : Background)
    → IsDone true b
    → IsDone false (end_background draw now r b).1
unfolding end_background
ended-IsDone draw now r b (idle, halted) = elim (Bool-cases (ltb 0 b.period)) [
  | inl positive ↦ rw (positive, halted refl) (idle, λ h. absurd cc)
  | inr zero ↦ rw zero (idle, λ h. absurd cc)
]

ended-IsLive :
    (draw : ℕ → ℕ) (now : ℕ) (r : Result (Unit {0})) (b : Background)
    → IsLive true b
    → IsLive false (end_background draw now r b).1
unfolding end_background schedule_next
ended-IsLive draw now r b (single, idle) = elim (Bool-cases (ltb 0 b.period)) [
  | inl positive ↦ elim (Bool-cases b.stopped) [
    | inl halted ↦ rw (positive, halted) (single, λ h. absurd cc)
    | inr runs ↦ rw (positive, runs) (arm-IsSingle _ b.slot (idle refl), λ h. absurd cc)
  ]
  | inr zero ↦ rw zero (single, λ h. absurd cc)
]

module _ (o : Outside) (h : Surroundings o.World) where
  -- A phase keeps what it holds if the clients, the runtime data, the monitor's registrations and what
  -- it asks of the key manager stay.
  kept :
      (p : Phase) (flying flying' : Bool) (s t : State o h)
      → t.clients ≡ s.clients
      → t.runtime_data ≡ s.runtime_data
      → registered t.runtime.monitor ≡ registered s.runtime.monitor
      → (IsDone flying s.background → IsDone flying' t.background)
      → (IsLive flying s.background → IsLive flying' t.background)
      → Holds flying p s
      → Holds flying' p t
  unfolding Holds
  kept unloaded flying flying' s t clients data_now same done live (none_open, off, rest) = (
    clients ∙ none_open,
    registered-IsOff s.runtime.monitor t.runtime.monitor same off,
    done rest,
  )
  kept loaded flying flying' s t clients data_now same done live (d, has, one, rest, monitor) =
      (d, data_now ∙ has, clients ∙ one, live rest, off monitor)
    where
      off :
          (d.has_monitor ≡ true) ⊎ IsOff s.runtime.monitor
          → (d.has_monitor ≡ true) ⊎ IsOff t.runtime.monitor
      off (inl has) = inl has
      off (inr was) = inr (registered-IsOff s.runtime.monitor t.runtime.monitor same was)

  fired-Holds :
      (p : Phase) (flying : Bool) (s : State o h) (timer : ℕ)
      → lookup timer s.background.slot.live ≢ none
      → Holds flying p s
      → let b = s.background in
        Holds true p
          (with_background (begin_background (record b { slot = expire timer b.slot })) s)
  unfolding Holds begin_background
  fired-Holds unloaded flying s timer live (none_open, off, (idle, halted)) =
      absurd (live (idle-lookup timer s.background.slot idle))
  fired-Holds loaded flying s timer live (d, has, one, (single, quiet), monitor) =
      let idle = expire-IsIdle timer s.background.slot single live in
      (d, has, one, (idle-IsSingle _ idle, λ _. idle), monitor)

module _ (o : Outside) (h : Surroundings o.World) (fails : FailsAsCloud o)
    (devices_fail : (w : o.World) (e : Exn)
      → (h.devices w).0 ≡ raised e
      → is_cloud_failure e ≡ true)
    (closes : (w : o.World) → (h.aclose w).0 ≡ ok tt) (quiet : ClosesQuietly o)
    (hex : (serial : String) → h.is_hex serial ≡ true)
    (platforms : (w : o.World) → (h.setup_platforms w).0 ≡ ok tt) where
  setup-Ends :
      (flying : Bool) (x : Result Bool × State o h)
      → Ends (λ _ t. Holds false loaded t) (λ _ t. Holds flying unloaded t) x
      → Holds (setup_flying flying x.0) (setup_phase x.0) x.1
  setup-Ends flying (ok b, t) held = held
  setup-Ends flying (raised e, t) held = held

  unload-Ends :
      (flying : Bool) (x : Result Bool × State o h)
      → Ends (λ r t. Holds flying (after_unload r) t) (λ _ t. Holds flying loaded t) x
      → Holds flying (unload_phase x.0) x.1
  unload-Ends flying (ok b, t) held = held
  unload-Ends flying (raised e, t) held = held

  step-Holds : {s t : Alive o h} → Step o h s t → IsHeld s → IsHeld t
  step-Holds {s} (sets_up options before after) held = rw after (
      setup-Ends s.flying (async_setup_entry o h options s.entry) (
        setup-Holds o h s.flying fails devices_fail closes hex platforms options s.entry
          (subst (λ p. Holds s.flying p s.entry) before held)))
  step-Holds {s} (unloads before after) held = rw after (
      unload-Ends s.flying (async_unload_entry o h s.entry) (
        unload-Holds o h quiet closes s.flying s.entry
          (subst (λ p. Holds s.flying p s.entry) before held)))
  step-Holds {s} (handles r handled after) held = rw after (
      kept o h s.phase s.flying s.flying s.entry (with_runtime r s.entry) refl refl
        (Handled-registered o handled) (λ done. done) (λ live. live) held)
  step-Holds {s} (fires timer live after) held =
      rw after (fired-Holds o h s.phase s.flying s.entry timer live held)
  step-Holds {s} (ends now r flying after) held = rw after (
      let b = s.entry.background in
      kept o h s.phase true false s.entry
        (with_background (end_background h.draw now r b).1 s.entry) refl refl refl
        (ended-IsDone h.draw now r b) (ended-IsLive h.draw now r b)
        (subst (λ f. Holds f s.phase s.entry) flying held))

  -- If the cloud fails by cloud and network errors only, closing a client or a facade does not raise,
  -- every serial is hexadecimal and the platforms are set up: whatever setups, unloads, handlers and
  -- key refreshes follow one another, and however each ends, the entry holds what its phase allows. An
  -- unloaded entry has no open client, no Bluetooth callback and no timer, and a key refresh that
  -- outlives the unload is one of a stopped manager. A loaded entry has the one client of its runtime
  -- data, and one timer of the key refresh at most.
  pub Run-Holds : {s : Alive o h} → Run o h s → Holds s.flying s.phase s.entry
  Run-Holds (created held) = held
  Run-Holds (next r st) = step-Holds st (Run-Holds r)
