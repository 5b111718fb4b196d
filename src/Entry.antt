-- ===== src/Entry.antt =====
-- custom_components/danalock_ble/__init__.py: the helpers of the setup, and the state of one config
-- entry. `Entry.Setup` and `Entry.Unload` have the setup and the unload.
pub mod Setup
pub mod Unload
pub mod Controls
pub mod Holds
pub mod Opening
pub mod Closing
pub mod Handlers
pub mod Registered
pub mod Lifecycle
pub mod Returned
pub mod Account
pub mod Populated
use danalock_ble_ha_integrat.Prelude.{
  ℕ, String, ◌<>◌, Bool, true, false, Option, none, some, List, [], ◌∷◌, ◌||◌, ◌&&◌, not, ◌==◌,
  contains, string_eq, if◌then◌else◌,
}
use danalock_ble_ha_integrat.Prelude.Dict.{Dict, lookup, insert, erase, keys}
use danalock_ble_ha_integrat.Prelude.Errors.{Result, ok, raised, Action}
use danalock_ble_ha_integrat.Outside.{Outside, External, Runtime}
use danalock_ble_ha_integrat.KeyManager.Timer.{Background}
use danalock_ble_ha_integrat.Storage.{TokenData, TokenStorage, async_load, async_save}

-- A device of the cloud account.
pub record Summary : Type 0 where
  pub serial : String
  pub name : Option String
  pub device_type : Option String

-- A device of the registry, with its identifiers of this integration.
pub record RegistryDevice : Type 0 where
  pub id : String
  pub serials : List String

-- What the setup and the unload call beside the runtime objects: the cloud client, the device
-- registry, the platforms, the listener for changed options, the action of the integration, the
-- reload of the entry, the clock, Bluetooth, and the random draw of the key manager. `is_hex`
-- says which texts `bytes.fromhex` takes; `Json` to `float` are those of `Storage`.
pub record Surroundings (W : Type 0) : Type 1 where
  pub Json : Type 0
  pub Float : Type 0
  pub of_float : Float → Json
  pub float : Json → Option Float
  pub new_client : External W (Unit {0})
  pub devices : External W (List Summary)
  pub aclose : External W (Unit {0})
  pub get_or_create : String → String → String → W → W
  pub entry_devices : W → List RegistryDevice
  pub remove_device : String → W → W
  pub setup_platforms : External W (Unit {0})
  pub unload_platforms : External W Bool
  pub add_update_listener : W → W
  pub register_check : W → W
  pub reload : External W (Unit {0})
  pub is_registered : W → Bool
  pub now : W → ℕ
  pub draw : ℕ → ℕ
  pub is_hex : String → Bool

-- `DanalockRuntimeData`; the keys, the controls and the monitor are those of `Runtime`, and
-- `has_monitor` is false while `monitor` is None.
pub record RuntimeData : Type 0 where
  pub client : ℕ
  pub names : Dict String (Option String)
  pub device_types : Dict String (Option String)
  pub has_monitor : Bool

-- The tokens of the entry, and those that the login flow staged in `hass.data`.
pub record Tokens (Json Float : Type 0) : Type 0 where
  pub storage : TokenStorage Json Float
  pub staged : Option (Dict String (TokenData Json Float))
  pub unique_id : Option String

-- `clients` are the cloud clients that were opened and not closed, `removed` the registry devices
-- that were removed, the latest first.
pub record Entry (W Json Float : Type 0) : Type 0 where
  pub runtime : Runtime W
  pub background : Background
  pub runtime_data : Option RuntimeData
  pub tokens : Tokens Json Float
  pub clients : List ℕ
  pub next_client : ℕ
  pub removed : List String

-- `_pop_pending_tokens`
unfoldable pub pop_pending_tokens :
    {Json Float : Type 0}
    → Tokens Json Float
    → Option (TokenData Json Float) × Option (Dict String (TokenData Json Float))
pop_pending_tokens t = elim t.staged [
  | none ↦ (none, none)
  | some stage ↦ elim t.unique_id [
    | none ↦ (none, some stage)
    | some unique_id ↦ (lookup unique_id stage, some (erase unique_id stage))
  ]
]

module _ {Json Float : Type 0} (of_float : Float → Json) (float : Json → Option Float) where
  use_pending :
      Option (TokenData Json Float) × Option (Dict String (TokenData Json Float))
      → Tokens Json Float
      → Tokens Json Float
  use_pending (none, stage) t = record t { staged = stage }
  use_pending (some token, stage) t = record t {
    staged = stage;
    storage = async_save of_float float token t.storage;
  }

  -- The first lines of `async_setup_entry`.
  unfoldable pub load_tokens : Tokens Json Float → Tokens Json Float
  unfolding use_pending pop_pending_tokens
  load_tokens t =
      let loaded = record t { storage = async_load of_float float t.storage } in
      elim loaded.storage.token [
        | some token ↦ loaded
        | none ↦ use_pending (pop_pending_tokens loaded) loaded
      ]

present_or : Option (Option String) → String → String
present_or (some (some (String.◌∷◌ c s))) fallback = String.◌∷◌ c s
present_or _ fallback = fallback

-- `_device_name`
unfoldable pub device_name : Dict String (Option String) → String → String
unfolding present_or
device_name names serial = present_or (lookup serial names) ("danalock_" <> serial)

-- `_device_model`
unfoldable pub device_model : Option String → String
device_model none = "V3"
device_model (some device_type) = if device_type == "danalockv3" then "Danalock V3" else device_type

-- `_is_supported_device`
unfoldable pub is_supported_device : Option String → Bool
is_supported_device none = true
is_supported_device (some device_type) = device_type == "danalockv3"

-- The summaries of the supported devices.
unfoldable pub supported : List Summary → List Summary
unfolding is_supported_device
supported [] = []
supported (s ∷ rest) =
    let others = supported rest in if is_supported_device s.device_type then s ∷ others else others

-- `{summary.serial: f(summary) for summary in summaries}`
abbrev pub dict_of : {A : Type 0} → (Summary → A) → List Summary → Dict String A → Dict String A
dict_of f [] d = d
dict_of f (s ∷ rest) d = dict_of f rest (insert s.serial (f s) d)

-- `serials.isdisjoint(device_types)`
unfoldable pub is_disjoint : List String → Dict String (Option String) → Bool
is_disjoint [] device_types = true
is_disjoint (s ∷ rest) device_types =
    not (contains (keys device_types) s) && is_disjoint rest device_types

-- The test for a device that is not in the account any more.
unfoldable pub is_stale : Dict String (Option String) → RegistryDevice → Bool
unfolding is_disjoint
is_stale device_types d =
    not (elim d.serials [ [] ↦ true | s ∷ rest ↦ false ]) && is_disjoint d.serials device_types

-- The first loop of `_register_devices`.
unfoldable pub create_devices :
    {W : Type 0}
    → Surroundings W
    → Dict String (Option String)
    → Dict String (Option String)
    → W
    → W
unfolding device_model device_name
create_devices h names [] w = w
create_devices h names ((serial, device_type) ∷ rest) w =
    create_devices h names rest
      (h.get_or_create serial (device_model device_type) (device_name names serial) w)

module _ {W : Type 0} (h : Surroundings W) where
  -- A device is removed from the registry if it is stale.
  unfoldable pub remove_one :
      Dict String (Option String) → RegistryDevice → Entry W h.Json h.Float → Entry W h.Json h.Float
  remove_one device_types d s =
      if is_stale device_types d
      then record s {
        runtime = record (s.runtime) { world = h.remove_device d.id s.runtime.world };
        removed = d.id ∷ s.removed;
      }
      else s

  -- The second loop, over the devices that the registry listed before it.
  unfoldable pub remove_stale :
      Dict String (Option String)
      → List RegistryDevice
      → Entry W h.Json h.Float
      → Entry W h.Json h.Float
  unfolding remove_one
  remove_stale device_types [] s = s
  remove_stale device_types (d ∷ rest) s =
      remove_stale device_types rest (remove_one device_types d s)

  -- `_register_devices`
  unfoldable pub register_devices :
      Dict String (Option String)
      → Dict String (Option String)
      → Entry W h.Json h.Float
      → Entry W h.Json h.Float
  unfolding create_devices remove_stale
  register_devices names device_types s =
      let w = create_devices h names device_types s.runtime.world in
      remove_stale device_types (h.entry_devices w)
        (record s { runtime = record (s.runtime) { world = w } })
