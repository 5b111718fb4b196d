-- ===== src/Entities/Listeners.antt =====
-- The listeners that an entity registers and takes away, and what a refreshed key makes of them.
use danalock_ble_ha_integrat.Prelude.{
  ℕ, String, Bool, true, false, some, List, [], ◌∷◌, ◌++◌, ◌≡◌, refl, arith, ap, subst, sym, ◌∙◌,
  contains, string_eq, nat_eq, ◌==◌, Bool-cases, inl, inr,
}
use danalock_ble_ha_integrat.Prelude.Dict.{Dict, lookup, insert, lookup-insert_self}
use danalock_ble_ha_integrat.Prelude.Errors.{ok, modify, gets, ◌>>=◌, ◌>>◌, >>=-ok}
use danalock_ble_ha_integrat.Pydanalock.{DeviceKey}
use danalock_ble_ha_integrat.Broadcast.{Device, Monitor, remove_first, remove_listener}
use danalock_ble_ha_integrat.Broadcast
use danalock_ble_ha_integrat.Outside.{Outside, Runtime}
use danalock_ble_ha_integrat.KeyManager.{
  key, prepend, close, set_key, push_key, refresh_normalized, refresh, notify,
}
use danalock_ble_ha_integrat.KeyManager
use danalock_ble_ha_integrat.KeyManager.Refresh.{refresh_propagates}
use danalock_ble_ha_integrat.Entities.{
  Listening, with_monitor, set_key_listener, drop_key_listener, on_keys, added, will_remove,
  key_added, key_will_remove, key_valid_until,
}

remove_first-append :
    (l : ℕ) (ls : List ℕ) → contains ls l ≡ false → remove_first l (ls ++ (l ∷ [])) ≡ ls
unfolding remove_first
remove_first-append l [] h = ground arith
remove_first-append l (x ∷ xs) h = ground (arith, h, remove_first-append l xs)

contains-append : (l : ℕ) (ls : List ℕ) → contains (ls ++ (l ∷ [])) l ≡ true
contains-append l [] = ground arith
contains-append l (x ∷ xs) = ground (arith, contains-append l xs)

module _ {V : Type 0} where
  insert-insert :
      (k : String) (v w : V) (d : Dict String V) → insert k v (insert k w d) ≡ insert k v d
  unfolding insert
  insert-insert k v w [] = ground arith
  insert-insert k v w (_ ∷ d) = ground (arith, insert-insert k v w d)

  insert-same : (k : String) (v : V) (d : Dict String V) → lookup k d ≡ some v → insert k v d ≡ d
  unfolding insert lookup
  insert-same k v [] h = cc
  insert-same k v (_ ∷ d) h = ground (arith, h, insert-same k v d)

with_listener : ℕ → Device → Device
with_listener l d = record d { listeners = d.listeners ++ (l ∷ []) }

-- What was appended and removed again leaves the dict as it was.
rejoined :
    {V : Type 0} (serial : String) (before with_one again : V) (d : Dict String V)
    → lookup serial d ≡ some before
    → again ≡ before
    → insert serial again (insert serial with_one d) ≡ d
rejoined serial before with_one again d found same =
    insert-insert serial again with_one d
    ∙ ap (λ v. insert serial v d) same
    ∙ insert-same serial before d found

monitor-round :
    (serial : String) (l : ℕ) (m : Monitor) (d : Device)
    → lookup serial m.devices ≡ some d
    → contains d.listeners l ≡ false
    → let joined = record m { devices = insert serial (with_listener l d) m.devices } in
      (Broadcast.add_listener serial l m ≡ some joined) × (remove_listener serial l joined ≡ ok m)
unfolding with_listener Broadcast.add_listener remove_listener
monitor-round serial l m d found new = (
  rw (Broadcast.add_listener, found) refl,
  rw
      (
        remove_listener,
        lookup-insert_self serial (with_listener l d) m.devices,
        contains-append l d.listeners,
      )
      (ap (λ ds. ok (record m { devices = ds }))
        (rejoined serial d (with_listener l d)
          (record d { listeners = remove_first l (d.listeners ++ (l ∷ [])) }) m.devices found
          (ap (λ ls. record d { listeners = ls }) (remove_first-append l d.listeners new)))),
)

module _ {W : Type 0} where
  keys-removed :
      (serial : String) (l : ℕ) (s : Runtime W) (ls : List ℕ)
      → lookup serial s.key_listeners ≡ some ls
      → contains ls l ≡ false
      → KeyManager.remove_listener serial l
          (record s { key_listeners = insert serial (ls ++ (l ∷ [])) s.key_listeners })
        ≡ (ok tt, s)
  unfolding KeyManager.remove_listener
  keys-removed serial l s ls found new =
      rw
        (
          KeyManager.remove_listener,
          lookup-insert_self serial (ls ++ (l ∷ [])) s.key_listeners,
          contains-append l ls,
        )
        (ap (λ d. (ok tt, record s { key_listeners = d }))
          (rejoined serial ls (ls ++ (l ∷ [])) (remove_first l (ls ++ (l ∷ []))) s.key_listeners
            found (remove_first-append l ls new)))

  keys-round :
      (serial : String) (l : ℕ) (s : Runtime W) (ls : List ℕ)
      → lookup serial s.key_listeners ≡ some ls
      → contains ls l ≡ false
      → KeyManager.remove_listener serial l (KeyManager.add_listener serial l s) ≡ (ok tt, s)
  unfolding KeyManager.add_listener
  keys-round serial l s ls found new =
      rw (KeyManager.add_listener, found) (keys-removed serial l s ls found new)

  abbrev joined : Device → Listening W → Listening W
  joined d s = record s {
    runtime = record (s.runtime) {
      monitor = record (s.runtime.monitor) {
        devices = insert s.serial (with_listener s.listener d) s.runtime.monitor.devices;
      };
    };
    listens = true;
  }

  abbrev heard : Device → Listening W → Listening W
  heard d s = record (joined d s) {
    runtime = KeyManager.add_listener s.serial s.listener (joined d s).runtime;
    listens_for_keys = true;
  }

  abbrev left : Listening W → Listening W
  left s = record s {
    runtime = KeyManager.add_listener s.serial s.listener s.runtime;
    listens = false;
    listens_for_keys = true;
  }

  key_added-heard :
      (s : Listening W) (d : Device)
      → lookup s.serial s.runtime.monitor.devices ≡ some d
      → contains d.listeners s.listener ≡ false
      → key_added s ≡ (ok tt, heard d s)
  unfolding key_added added with_monitor set_key_listener
  key_added-heard s d known new =
      >>=-ok added
        (λ _.
          modify (λ (t : Listening W). record t {
            runtime = KeyManager.add_listener t.serial t.listener t.runtime;
          })
          >> modify (set_key_listener true))
        s tt (joined d s)
        (rw (added, (monitor-round s.serial s.listener s.runtime.monitor d known new).0) refl)

  will_remove-left :
      (s : Listening W) (d : Device)
      → lookup s.serial s.runtime.monitor.devices ≡ some d
      → contains d.listeners s.listener ≡ false
      → will_remove (heard d s) ≡ (ok tt, left s)
  unfolding will_remove with_monitor KeyManager.add_listener
  will_remove-left s d known new =
      ap (λ m. with_monitor m false (heard d s))
        (monitor-round s.serial s.listener s.runtime.monitor d known new).1

  -- If no listener of the device is the entity's: after the sensor of the key validity was added
  -- and removed, all is as it was before.
  pub key_added-key_will_remove :
      (s : Listening W) (d : Device) (ls : List ℕ)
      → lookup s.serial s.runtime.monitor.devices ≡ some d
      → lookup s.serial s.runtime.key_listeners ≡ some ls
      → contains d.listeners s.listener ≡ false
      → contains ls s.listener ≡ false
      → (key_added >> key_will_remove) s
        ≡ (ok tt, record s { listens = false; listens_for_keys = false })
  unfolding key_will_remove drop_key_listener set_key_listener
  key_added-key_will_remove s d ls known keys new other =
      >>=-ok key_added (λ _. key_will_remove) s tt (heard d s) (key_added-heard s d known new)
      ∙ >>=-ok will_remove
          (λ _. gets (λ (t : Listening W). t.listens_for_keys) >>= drop_key_listener) (heard d s) tt
          (left s) (will_remove-left s d known new)
      ∙ >>=-ok (λ t. on_keys (KeyManager.remove_listener t.serial t.listener) t)
          (λ _. modify (set_key_listener false)) (left s) tt
          (record s { listens = false; listens_for_keys = true })
          (ap (λ x. (x.0, record (left s) { runtime = x.1 }))
            (keys-round s.serial s.listener s.runtime ls keys other))

contains-prepend_tail :
    (l : ℕ) (ls tail : List ℕ) → contains tail l ≡ true → contains (prepend ls tail) l ≡ true
unfolding prepend
contains-prepend_tail l [] tail h = h
contains-prepend_tail l (x ∷ ls) tail h = contains-prepend_tail l ls (x ∷ tail) (ground (arith, h))

contains-prepend :
    (l : ℕ) (ls tail : List ℕ) → contains ls l ≡ true → contains (prepend ls tail) l ≡ true
unfolding prepend
contains-prepend l [] tail h = cc
contains-prepend l (x ∷ ls) tail h = elim (Bool-cases (l == x)) [
  | inl same ↦ contains-prepend_tail l ls (x ∷ tail) (ground (arith, same))
  | inr differ ↦ contains-prepend l ls (x ∷ tail) (ground (arith, h, differ))
]

module _ (o : Outside) (s : Listening o.World) (force : Bool) (k : DeviceKey) where
  shows :
      (t : Runtime o.World)
      → lookup s.serial t.keys ≡ some k
      → (key_valid_until (record s { runtime = t })).0 ≡ ok k.valid_to
  unfolding key_valid_until key
  shows t found = ground (arith, found)

  schedules :
      (ls : List ℕ)
      → lookup s.serial s.runtime.key_listeners ≡ some ls
      → contains ls s.listener ≡ true
      → (refresh_normalized o s.serial force s.runtime).0 ≡ ok k
      → contains (refresh_normalized o s.serial force s.runtime).1.scheduled s.listener ≡ true
  unfolding refresh_normalized push_key set_key close notify
  schedules ls listeners listens done =
      ground (arith, listeners, done, contains-prepend s.listener ls s.runtime.scheduled listens)

-- If a refresh of the sensor's device returns a key, the sensor then shows the end of the validity of
-- that key, and its listener, if the key manager has it, is handed to the loop.
pub key_valid_until-refresh :
    (o : Outside) (s : Listening o.World) (force : Bool) (k : DeviceKey) (ls : List ℕ)
    → o.normalize_serial s.serial ≡ s.serial
    → lookup s.serial s.runtime.key_listeners ≡ some ls
    → contains ls s.listener ≡ true
    → (refresh o s.serial force s.runtime).0 ≡ ok k
    → let t = record s { runtime = (refresh o s.serial force s.runtime).1 } in
      ((key_valid_until t).0 ≡ ok k.valid_to) × (contains t.runtime.scheduled s.listener ≡ true)
unfolding refresh
key_valid_until-refresh o s force k ls normal listeners listens done =
    let found = (refresh_propagates o s.serial force k s.runtime done).0 in
    let same = ap (λ n. refresh_normalized o n force s.runtime) normal in
    (
      shows o s force k (refresh o s.serial force s.runtime).1
          (subst (λ n. lookup n (refresh o s.serial force s.runtime).1.keys ≡ some k) normal found),
      subst (λ x. contains x.1.scheduled s.listener ≡ true) (sym same)
          (schedules o s force k ls listeners listens (ap (λ x. x.0) (sym same) ∙ done)),
    )
