-- ===== src/KeyManager/Refresh.antt =====
-- One refresh on all its branches.
use danalock_ble_ha_integrat.Prelude.{
  String, Bool, true, some, ◌≡◌, ◌≢◌, arith, contains, string_eq,
}
use danalock_ble_ha_integrat.Prelude.Dict.{lookup, lookup-insert_self, lookup-insert_ne}
use danalock_ble_ha_integrat.Prelude.Errors.{Exn, ok, raised, is_cloud_failure}
use danalock_ble_ha_integrat.Pydanalock.{DeviceKey}
use danalock_ble_ha_integrat.Outside.{Outside, Runtime, Facade, facade}
use danalock_ble_ha_integrat.KeyManager.{
  notify, close, set_key, push_key, refresh_normalized, refresh,
}

-- `DanalockLock.disconnect` does not raise, whatever the state of the session.
abbrev pub ClosesQuietly : Outside → Type 0
ClosesQuietly o = (f : Facade) (w : o.World) → (o.disconnect f w).0 ≡ ok tt

-- `AsyncDanalockCloud.get_key` raises nothing but cloud and network errors.
abbrev pub FailsAsCloud : Outside → Type 0
FailsAsCloud o =
    (serial : String) (force : Bool) (w : o.World) (e : Exn)
    → (o.get_key serial force w).0 ≡ raised e
    → is_cloud_failure e ≡ true

module _ (o : Outside) where
  -- A refresh that returns has put the key that it returns into the shared dict, under the
  -- normalized serial, and into the facade of that serial's bound control; the keys and the facades
  -- of all other serials are as before.
  pub refresh_propagates :
      (serial : String) (force : Bool) (k : DeviceKey) (s : Runtime o.World)
      → (refresh o serial force s).0 ≡ ok k
      → let n = o.normalize_serial serial in
        let t = (refresh o serial force s).1 in
        (lookup n t.keys ≡ some k)
        × (contains s.controls n ≡ true → t.tokens n ≡ k.login_blob)
        × ((j : String) → j ≢ n → (lookup j t.keys ≡ lookup j s.keys) × (t.tokens j ≡ s.tokens j))
  unfolding refresh refresh_normalized push_key set_key close notify
  refresh_propagates serial force k s h = (
    ground (arith, lookup-insert_self (o.normalize_serial serial) k s.keys),
    λ bound. ground arith,
    λ j ne.
        (ground (arith, lookup-insert_ne j (o.normalize_serial serial) k s.keys ne), ground arith),
  )

  -- A refresh whose fetch raises changes no key, no facade and no listener, and raises the same.
  pub refresh_fetch_raises :
      (serial : String) (force : Bool) (e : Exn) (s : Runtime o.World)
      → (o.get_key (o.normalize_serial serial) force s.world).0 ≡ raised e
      → let r = refresh o serial force s in
        (r.0 ≡ raised e)
        × (r.1.keys ≡ s.keys)
        × (r.1.tokens ≡ s.tokens)
        × (r.1.scheduled ≡ s.scheduled)
        × (r.1.reauths ≡ s.reauths)
  unfolding refresh refresh_normalized
  refresh_fetch_raises serial force e s h = ground arith

  -- With a disconnect that does not raise, a refresh whose fetch succeeds returns the fetched key.
  pub refresh_total :
      (serial : String) (force : Bool) (k : DeviceKey) (s : Runtime o.World)
      → ClosesQuietly o
      → (o.get_key (o.normalize_serial serial) force s.world).0 ≡ ok k
      → (refresh o serial force s).0 ≡ ok k
  unfolding refresh refresh_normalized push_key set_key close notify
  refresh_total serial force k s quiet h = ground (
    arith,
    quiet (facade (o.normalize_serial serial) s)
        (o.get_key (o.normalize_serial serial) force s.world).1,
  )

  -- If the disconnect of the old session raises, the shared dict has the fetched key already while
  -- the facade of the bound control keeps the old token, and the exception leaves the refresh.
  pub refresh_half_done :
      (serial : String) (force : Bool) (k : DeviceKey) (e : Exn) (s : Runtime o.World)
      → (o.get_key (o.normalize_serial serial) force s.world).0 ≡ ok k
      → contains s.controls (o.normalize_serial serial) ≡ true
      → ((f : Facade) (w : o.World) → (o.disconnect f w).0 ≡ raised e)
      → let r = refresh o serial force s in
        (r.0 ≡ raised e)
        × (lookup (o.normalize_serial serial) r.1.keys ≡ some k)
        × (r.1.tokens ≡ s.tokens)
  unfolding refresh refresh_normalized push_key set_key close
  refresh_half_done serial force k e s h bound fails = ground (
    arith,
    fails (facade (o.normalize_serial serial) s)
        (o.get_key (o.normalize_serial serial) force s.world).1,
    lookup-insert_self (o.normalize_serial serial) k s.keys,
  )
