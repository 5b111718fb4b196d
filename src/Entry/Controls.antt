-- ===== src/Entry/Controls.antt =====
-- The controls that the setup builds: each gets the token of its key.
use danalock_ble_ha_integrat.Prelude.{
  String, true, Option, none, some, List, [], ◌∷◌, ◌≡◌, ◌≢◌, ◌⊎◌, inl, inr, refl, arith, ap, subst,
  sym, ◌∙◌, ◌==◌, string_eq, if◌then◌else◌, All, contains, Option-cases, Bool-cases,
}
use danalock_ble_ha_integrat.Prelude.Dict.{Dict, lookup, keys, contains-keys, lookup-nil}
use danalock_ble_ha_integrat.Prelude.Errors.{ok, ◌>>◌, modify, >>=-ok}
use danalock_ble_ha_integrat.Pydanalock.{Bytes, DeviceKey}
use danalock_ble_ha_integrat.Const.{Options}
use danalock_ble_ha_integrat.Outside.{Outside}
use danalock_ble_ha_integrat.KeyManager.{key, bind_controls}
use danalock_ble_ha_integrat.KeyManager.Coherence.{IsCoherent}
use danalock_ble_ha_integrat.Entry.{Surroundings, Entry}
use danalock_ble_ha_integrat.Entry.Setup.{
  on_runtime, new_control, new_controls, start_monitor, start_refresh, start_objects,
}

-- The login token of a serial's key.
blob : Option DeviceKey → Bytes
blob none = []
blob (some k) = k.login_blob

-- The tokens after the controls of these serials were built.
unfoldable pub built : Dict String DeviceKey → List String → (String → Bytes) → String → Bytes
unfolding blob
built ks [] tokens = tokens
built ks (serial ∷ rest) tokens =
    built ks rest (λ j. if j == serial then blob (lookup serial ks) else tokens j)

built_lem :
    (ks : Dict String DeviceKey) (serials : List String) (tokens : String → Bytes) (j : String)
    → (contains serials j ≡ true) ⊎ (tokens j ≡ blob (lookup j ks))
    → built ks serials tokens j ≡ blob (lookup j ks)
unfolding built
built_lem ks [] tokens j (inl h) = cc
built_lem ks [] tokens j (inr h) = h
built_lem ks (serial ∷ rest) tokens j h =
    built_lem ks rest (λ i. if i == serial then blob (lookup serial ks) else tokens i) j
      (elim (Bool-cases (j == serial)) [
        | inl same ↦ inr (ground (arith, same))
        | inr differ ↦ elim h [
          | inl within ↦ inl (ground (arith, differ, within))
          | inr before ↦ inr (ground (arith, differ, before))
        ]
      ])

All-of_contains :
    (P : String → Type 0) (xs : List String)
    → ((x : String) → contains xs x ≡ true → P x)
    → All P xs
All-of_contains P [] p = tt
All-of_contains P (x ∷ xs) p =
    (p x (ground arith), All-of_contains P xs (λ y within. p y (ground (arith, within))))

pub keys-present : (ks : Dict String DeviceKey) → All (λ serial. lookup serial ks ≢ none) (keys ks)
keys-present ks = All-of_contains _ (keys ks) (λ serial. (contains-keys ks serial).0)

module _ (o : Outside) (h : Surroundings o.World)
    (hex : (serial : String) → h.is_hex serial ≡ true) where
  new_control_lem :
      (serial : String) (k : DeviceKey) (s : Entry o.World h.Json h.Float)
      → lookup serial s.runtime.keys ≡ some k
      → new_control o h serial s ≡ (
        ok tt,
        record s {
          runtime = record (s.runtime) {
            tokens = λ j. if j == serial then k.login_blob else s.runtime.tokens j;
          };
        },
      )
  unfolding new_control key
  new_control_lem serial k s found = ground (arith, found, hex serial)

  -- Controls whose keys are in the shared dict are built.
  pub new_controls_lem :
      (serials : List String) (s : Entry o.World h.Json h.Float)
      → All (λ serial. lookup serial s.runtime.keys ≢ none) serials
      → new_controls o h serials s ≡ (
        ok tt,
        record s {
          runtime = record (s.runtime) { tokens = built s.runtime.keys serials s.runtime.tokens };
        },
      )
  unfolding new_controls built blob
  new_controls_lem [] s present = refl
  new_controls_lem (serial ∷ rest) s present = elim (Option-cases (lookup serial s.runtime.keys)) [
    | inl missing ↦ absurd (present.0 missing)
    | inr (k, found) ↦
        let t : Entry o.World h.Json h.Float = record s {
          runtime = record (s.runtime) {
            tokens = λ j. if j == serial then k.login_blob else s.runtime.tokens j;
          };
        } in
        >>=-ok (new_control o h serial) (λ _. new_controls o h rest) s tt t
          (new_control_lem serial k s found)
        ∙ new_controls_lem rest t present.1
        ∙ rw found refl
  ]

  abbrev built_controls :
      Dict String DeviceKey → Entry o.World h.Json h.Float → Entry o.World h.Json h.Float
  built_controls ks s = record s {
    runtime = record (s.runtime) {
      tokens = built s.runtime.keys (keys ks) s.runtime.tokens;
      controls = keys ks;
    };
  }

  -- The entry after the block under `if keys`.
  unfoldable pub running :
      Options → Dict String DeviceKey → Entry o.World h.Json h.Float → Entry o.World h.Json h.Float
  running options [] s = s
  running options ((serial, k) ∷ ks) s =
      start_refresh o h options
        (built_controls ((serial, k) ∷ ks) (start_monitor o h ((serial, k) ∷ ks) s))

  pub start_objects_lem :
      (options : Options) (ks : Dict String DeviceKey) (s : Entry o.World h.Json h.Float)
      → s.runtime.keys ≡ ks
      → start_objects o h options ks s ≡ (ok tt, running options ks s)
  unfolding start_objects running start_monitor bind_controls
  start_objects_lem options [] s same = refl
  start_objects_lem options ((serial, k) ∷ ks) s same =
      let m = start_monitor o h ((serial, k) ∷ ks) s in
      >>=-ok (new_controls o h (serial ∷ keys ks))
        (λ _. do
          on_runtime (modify (bind_controls (serial ∷ keys ks)))
          modify (start_refresh o h options))
        m tt _
        (new_controls_lem (serial ∷ keys ks) m (
          subst (λ d. All (λ j. lookup j d ≢ none) (serial ∷ keys ks)) (sym same)
            (keys-present ((serial, k) ∷ ks))))

  -- The facade of every control that was built has the token of its key.
  pub running-IsCoherent :
      (options : Options) (ks : Dict String DeviceKey) (s : Entry o.World h.Json h.Float)
      → s.runtime.keys ≡ ks
      → IsCoherent (running options ks s).runtime
  unfolding running start_monitor start_refresh blob
  running-IsCoherent options [] s same j k bound found =
      absurd (ground (arith, ap (lookup j) same, lookup-nil {V = DeviceKey} j, found))
  running-IsCoherent options ((serial, k') ∷ ks) s same j k bound found =
      built_lem s.runtime.keys (serial ∷ keys ks) s.runtime.tokens j (inl bound) ∙ ap blob found
