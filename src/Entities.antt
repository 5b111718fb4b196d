-- ===== src/Entities.antt =====
-- custom_components/danalock_ble/entity.py: `DanalockEntity` and its listener; from sensor.py the sensor
-- of the key validity, which has a second one at the key manager.
pub mod Listeners
use danalock_ble_ha_integrat.Prelude.{
  ℕ, String, Bool, true, false, Option, none, some, ◌∷◌, string_eq, nat_eq, if◌then◌else◌,
}
use danalock_ble_ha_integrat.Prelude.Errors.{
  Result, ok, raised, key_error, Action, ◌>>=◌, ◌>>◌, pure, modify, gets,
}
use danalock_ble_ha_integrat.Pydanalock.{DeviceKey}
use danalock_ble_ha_integrat.Broadcast.{Monitor, remove_listener}
use danalock_ble_ha_integrat.Broadcast
use danalock_ble_ha_integrat.Outside.{Runtime}
use danalock_ble_ha_integrat.KeyManager.{key}
use danalock_ble_ha_integrat.KeyManager

-- `listener` stands for the entity's `async_write_ha_state`; the Booleans say that `_unsub_listener` and
-- `_unsub_key_listener` are set.
pub record Listening (W : Type 0) : Type 0 where
  pub runtime : Runtime W
  pub serial : String
  pub listener : ℕ
  pub listens : Bool
  pub listens_for_keys : Bool

module _ {W : Type 0} where
  -- The state after a call of the monitor, and what `_unsub_listener` then is.
  unfoldable pub with_monitor :
      Result Monitor → Bool → Listening W → Result (Unit {0}) × Listening W
  with_monitor (raised e) listens s = (raised e, s)
  with_monitor (ok m) listens s =
      (ok tt, record s { runtime = record (s.runtime) { monitor = m }; listens = listens })

  -- `DanalockEntity.async_added_to_hass`
  unfoldable pub added : Action (Listening W) (Unit {0})
  unfolding with_monitor
  added s = elim (Broadcast.add_listener s.serial s.listener s.runtime.monitor) [
    | none ↦ (raised (key_error s.serial), s)
    | some m ↦ with_monitor (ok m) true s
  ]

  -- `DanalockEntity.async_will_remove_from_hass`
  unfoldable pub will_remove : Action (Listening W) (Unit {0})
  unfolding with_monitor
  will_remove s =
      let removed = with_monitor (remove_listener s.serial s.listener s.runtime.monitor) false s in
      if s.listens then removed else (ok tt, s)

  abbrev pub on_keys : {A : Type 0} → Action (Runtime W) A → Action (Listening W) A
  on_keys f s = let (r, t) = f s.runtime in (r, record s { runtime = t })

  unfoldable pub set_key_listener : Bool → Listening W → Listening W
  set_key_listener listens s = record s { listens_for_keys = listens }

  -- `DanalockKeyValidUntilSensor.async_added_to_hass`
  unfoldable pub key_added : Action (Listening W) (Unit {0})
  unfolding set_key_listener
  key_added = do
    added
    modify (λ s. record s { runtime = KeyManager.add_listener s.serial s.listener s.runtime })
    modify (set_key_listener true)

  unfoldable pub drop_key_listener : Bool → Action (Listening W) (Unit {0})
  unfolding set_key_listener
  drop_key_listener false = pure tt
  drop_key_listener true = do
    λ s. on_keys (KeyManager.remove_listener s.serial s.listener) s
    modify (set_key_listener false)

  -- `DanalockKeyValidUntilSensor.async_will_remove_from_hass`
  unfoldable pub key_will_remove : Action (Listening W) (Unit {0})
  unfolding drop_key_listener
  key_will_remove = do
    will_remove
    listens ← gets (λ s. s.listens_for_keys)
    drop_key_listener listens

  -- `DanalockKeyValidUntilSensor.native_value`
  unfoldable pub key_valid_until : Action (Listening W) (Option ℕ)
  key_valid_until = do k ← λ s. on_keys (key s.serial) s; pure k.valid_to
