-- ===== src/KeyManager.antt =====
-- custom_components/danalock_ble/keymanager.py: `DanalockKeyManager` without its timer, and
-- `DanalockControl.set_key` and `disconnect` of control.py, which the refresh calls. A refresh of
-- one serial holds that serial's asyncio lock from its start to its end, so it runs as one handler.
pub mod Coherence
pub mod Timer
pub mod Pace
pub mod Refresh
use danalock_ble_ha_integrat.Prelude.{
  ℕ, suc, ◌+◌, String, Bool, true, false, Option, none, some, List, [], ◌∷◌, ◌++◌, ◌==◌, contains,
  string_eq, nat_eq, if◌then◌else◌,
}
use danalock_ble_ha_integrat.Prelude.Dict.{Dict, lookup, insert, keys}
use danalock_ble_ha_integrat.Prelude.Errors.{
  Exn, Result, ok, raised, Action, pure, raise, ◌>>=◌, ◌>>◌, catch, modify, gets, auth_error,
  cloud_error, http_error, key_error, value_error,
}
use danalock_ble_ha_integrat.Pydanalock.{Bytes, DeviceKey}
use danalock_ble_ha_integrat.Broadcast.{remove_first}
use danalock_ble_ha_integrat.Outside.{
  Outside, External, Runtime, Facade, Call, fetched, disconnected, facade,
}

-- A library call runs on the world, after it is noted.
abbrev pub outgoing : {W A : Type 0} → Call → External W A → Action (Runtime W) A
outgoing c f s = let (r, w) = f s.world in (r, record s { world = w; calls = c ∷ s.calls })

unfoldable pub prepend : List ℕ → List ℕ → List ℕ
prepend [] tail = tail
prepend (l ∷ ls) tail = prepend ls (l ∷ tail)

-- `_notify`
unfoldable pub notify : {W : Type 0} → String → Runtime W → Runtime W
unfolding prepend
notify serial s = record s {
  scheduled = elim (lookup serial s.key_listeners) [
    | none ↦ s.scheduled
    | some ls ↦ prepend ls s.scheduled
  ];
}

-- `key`
unfoldable pub key : {W : Type 0} → String → Action (Runtime W) DeviceKey
key serial s = elim (lookup serial s.keys) [
  | none ↦ (raised (key_error serial), s)
  | some k ↦ (ok k, s)
]

-- `add_listener`: `setdefault(serial, []).append(listener)`
unfoldable pub add_listener : {W : Type 0} → String → ℕ → Runtime W → Runtime W
add_listener serial listener s = record s {
  key_listeners = elim (lookup serial s.key_listeners) [
    | none ↦ insert serial (listener ∷ []) s.key_listeners
    | some ls ↦ insert serial (ls ++ (listener ∷ [])) s.key_listeners
  ];
}

-- The `_remove` that `add_listener` returns; a missing list or listener raises.
unfoldable pub remove_listener : {W : Type 0} → String → ℕ → Action (Runtime W) (Unit {0})
remove_listener serial listener s = elim (lookup serial s.key_listeners) [
  | none ↦ (raised (key_error serial), s)
  | some ls ↦
      if contains ls listener
      then (
        ok tt,
        record s { key_listeners = insert serial (remove_first listener ls) s.key_listeners },
      )
      else (raised (value_error "list.remove(x): x not in list"), s)
]

-- `bind_controls`
unfoldable pub bind_controls : {W : Type 0} → List String → Runtime W → Runtime W
bind_controls serials s = record s { controls = serials }

module _ (o : Outside) where
  abbrev pub Handler : Type 0 → Type 0
  Handler A = Action (Runtime o.World) A

  -- `await self._lock.disconnect()` of the control of the serial
  unfoldable pub close : String → Handler (Unit {0})
  close serial s = outgoing (disconnected (facade serial s)) (o.disconnect (facade serial s)) s

  abbrev rebuild : String → Bytes → Runtime o.World → Runtime o.World
  rebuild serial token s = record s { tokens = λ j. if j == serial then token else s.tokens j }

  -- `DanalockControl.set_key`
  unfoldable pub set_key : String → DeviceKey → Handler (Unit {0})
  set_key serial k = do close serial; modify (rebuild serial k.login_blob)

  abbrev store_key : String → DeviceKey → Runtime o.World → Runtime o.World
  store_key serial k s = record s { keys = insert serial k s.keys }

  -- The push to the bound control, if there is one.
  unfoldable pub push_key : String → DeviceKey → Handler (Unit {0})
  push_key serial k s = if contains s.controls serial then set_key serial k s else (ok tt, s)

  -- The body of `refresh` under the lock of the normalized serial.
  unfoldable pub refresh_normalized : String → Bool → Handler DeviceKey
  refresh_normalized serial force = do
    k ← outgoing (fetched serial force) (o.get_key serial force)
    modify (store_key serial k)
    push_key serial k
    modify (notify serial)
    pure k

  unfoldable pub refresh : String → Bool → Handler DeviceKey
  refresh serial force = refresh_normalized (o.normalize_serial serial) force

  -- The `except` clauses of `refresh_all`.
  unfoldable pub on_refresh_error : Exn → Handler (Unit {0})
  on_refresh_error (auth_error m) = modify (λ s. record s { reauths = s.reauths + 1 })
  on_refresh_error (cloud_error m) = pure tt
  on_refresh_error (http_error m) = pure tt
  on_refresh_error e = raise e

  unfoldable pub refresh_one : String → Handler (Unit {0})
  refresh_one serial = catch (do refresh serial true; pure tt) on_refresh_error

  unfoldable pub refresh_each : List String → Handler (Unit {0})
  refresh_each [] = pure tt
  refresh_each (serial ∷ rest) = do refresh_one serial; refresh_each rest

  -- `refresh_all`: the keys are listed before the first refresh.
  unfoldable pub refresh_all : Handler (Unit {0})
  refresh_all = do serials ← gets (λ s. keys s.keys); refresh_each serials
