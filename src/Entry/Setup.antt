-- ===== src/Entry/Setup.antt =====
-- custom_components/danalock_ble/__init__.py: `async_setup_entry`.
use danalock_ble_ha_integrat.Prelude.{
  ℕ, suc, String, Bool, true, false, Option, none, some, List, [], ◌∷◌, ◌==◌, string_eq, nat_eq,
  if◌then◌else◌,
}
use danalock_ble_ha_integrat.Prelude.Dict.{Dict, insert, keys, tabulate}
use danalock_ble_ha_integrat.Prelude.Errors.{
  Exn, Result, ok, Action, pure, raise, ◌>>=◌, ◌>>◌, catch, modify, auth_error, cloud_error,
  http_error, value_error, config_entry_auth_failed, config_entry_not_ready,
}
use danalock_ble_ha_integrat.Pydanalock.{DeviceKey}
use danalock_ble_ha_integrat.Const.{Options}
use danalock_ble_ha_integrat.Broadcast.{new_monitor, start, remove_first}
use danalock_ble_ha_integrat.Outside.{Outside, External, Runtime, fetched}
use danalock_ble_ha_integrat.KeyManager.{outgoing, key, bind_controls}
use danalock_ble_ha_integrat.KeyManager.Timer.{new_background, start_background}
use danalock_ble_ha_integrat.Entry.{
  Summary, RegistryDevice, Surroundings, RuntimeData, Entry, load_tokens, supported, dict_of,
  register_devices,
}

-- An action on the runtime objects, as one on the entry.
abbrev pub on_runtime : {W J F A : Type 0} → Action (Runtime W) A → Action (Entry W J F) A
on_runtime m s = let (r, t) = m s.runtime in (r, record s { runtime = t })

-- A call that changes the world only.
abbrev pub on_world : {W J F A : Type 0} → External W A → Action (Entry W J F) A
on_world f s =
    let (r, w) = f s.runtime.world in (r, record s { runtime = record (s.runtime) { world = w } })

module _ (o : Outside) (h : Surroundings o.World) where
  abbrev pub EntryAction : Type 0 → Type 0
  EntryAction A = Action (Entry o.World h.Json h.Float) A

  abbrev pub opened : Entry o.World h.Json h.Float → Result ℕ × Entry o.World h.Json h.Float
  opened s = (
    ok s.next_client,
    record s { clients = s.next_client ∷ s.clients; next_client = suc s.next_client },
  )

  -- `new_cloud_client`
  unfoldable pub new_cloud_client : EntryAction ℕ
  new_cloud_client = do on_world h.new_client; opened

  abbrev closed : ℕ → Entry o.World h.Json h.Float → Entry o.World h.Json h.Float
  closed client s = record s { clients = remove_first client s.clients }

  -- `await client.aclose()`; a client whose close raises stays open.
  unfoldable pub close_client : ℕ → EntryAction (Unit {0})
  close_client client = do on_world h.aclose; modify (closed client)

  -- The dict comprehension of the keys, one fetch after the other.
  unfoldable pub fetch_keys :
      List Summary → Dict String DeviceKey → EntryAction (Dict String DeviceKey)
  fetch_keys [] ks = pure ks
  fetch_keys (s ∷ rest) ks = do
    k ← on_runtime (outgoing (fetched s.serial false) (o.get_key s.serial false))
    fetch_keys rest (insert s.serial k ks)

  -- The `try` of `async_setup_entry`.
  unfoldable pub fetch_account : EntryAction (List Summary × Dict String DeviceKey)
  unfolding supported fetch_keys
  fetch_account = do
    summaries ← on_world h.devices
    ks ← fetch_keys (supported summaries) []
    pure (summaries, ks)

  -- Its `except` clauses.
  unfoldable pub on_fetch_error : ℕ → Exn → EntryAction (List Summary × Dict String DeviceKey)
  unfolding close_client
  on_fetch_error client (auth_error m) = do close_client client; raise (config_entry_auth_failed m)
  on_fetch_error client (cloud_error m) = do close_client client; raise (config_entry_not_ready m)
  on_fetch_error client (http_error m) = do close_client client; raise (config_entry_not_ready m)
  on_fetch_error client e = raise e

  -- The new key manager and `entry.runtime_data`.
  unfoldable pub publish :
      ℕ
      → List Summary
      → Dict String DeviceKey
      → Entry o.World h.Json h.Float
      → Entry o.World h.Json h.Float
  publish client summaries ks s = record s {
    runtime = record (s.runtime) {
      keys = ks;
      controls = [];
      key_listeners = tabulate (λ _. []) (keys ks);
    };
    background = new_background;
    runtime_data = some (record {
      client = client;
      names = dict_of (λ d. d.name) summaries [];
      device_types = dict_of (λ d. d.device_type) summaries [];
      has_monitor = false;
    });
  }

  abbrev with_token : String → DeviceKey → Runtime o.World → Runtime o.World
  with_token serial k s = record s {
    tokens = λ j. if j == serial then k.login_blob else s.tokens j;
  }

  -- The constructor of one `DanalockControl`.
  unfoldable pub new_control : String → EntryAction (Unit {0})
  new_control serial = do
    k ← on_runtime (key serial)
    if h.is_hex serial
        then on_runtime (modify (with_token serial k))
        else raise (value_error serial)

  unfoldable pub new_controls : List String → EntryAction (Unit {0})
  new_controls [] = pure tt
  new_controls (serial ∷ rest) = do new_control serial; new_controls rest

  set_monitor : Option RuntimeData → Option RuntimeData
  set_monitor none = none
  set_monitor (some d) = some (record d { has_monitor = true })

  -- The monitor of the keys, started and stored.
  unfoldable pub start_monitor :
      Dict String DeviceKey → Entry o.World h.Json h.Float → Entry o.World h.Json h.Float
  unfolding set_monitor
  start_monitor ks s = record s {
    runtime = record (s.runtime) {
      monitor = start (h.is_registered s.runtime.world) (h.now s.runtime.world) (new_monitor ks);
    };
    runtime_data = set_monitor s.runtime_data;
  }

  -- `key_manager.start()`
  unfoldable pub start_refresh :
      Options → Entry o.World h.Json h.Float → Entry o.World h.Json h.Float
  start_refresh options s = record s {
    background = start_background options h.draw (h.now s.runtime.world);
  }

  -- The block under `if keys`.
  unfoldable pub start_objects : Options → Dict String DeviceKey → EntryAction (Unit {0})
  start_objects options [] = pure tt
  start_objects options ((serial, k) ∷ ks) = do
    modify (start_monitor ((serial, k) ∷ ks))
    new_controls (serial ∷ keys ks)
    on_runtime (modify (bind_controls (serial ∷ keys ks)))
    modify (start_refresh options)

  abbrev tokens_loaded : Entry o.World h.Json h.Float → Entry o.World h.Json h.Float
  tokens_loaded s = record s { tokens = load_tokens h.of_float h.float s.tokens }

  -- `entry.async_on_unload(entry.add_update_listener(…))`; Home Assistant removes the listener again.
  abbrev pub listening : Entry o.World h.Json h.Float → Entry o.World h.Json h.Float
  listening s = record s {
    runtime = record (s.runtime) { world = h.add_update_listener s.runtime.world };
  }

  -- Behind the fetch of the account.
  unfoldable pub set_up : Options → ℕ → List Summary × Dict String DeviceKey → EntryAction Bool
  set_up options client (summaries, ks) = do
    modify (publish client summaries ks)
    modify (
        register_devices h (dict_of (λ d. d.name) summaries [])
          (dict_of (λ d. d.device_type) summaries []))
    start_objects options ks
    modify listening
    on_world h.setup_platforms
    pure true

  -- `async_setup_entry`
  unfoldable pub async_setup_entry : Options → EntryAction Bool
  async_setup_entry options = do
    modify tokens_loaded
    client ← new_cloud_client
    account ← catch fetch_account (on_fetch_error client)
    set_up options client account

  -- `async_setup`, once for all entries.
  unfoldable pub async_setup : EntryAction Bool
  async_setup = do
    modify (λ s. record s {
      runtime = record (s.runtime) { world = h.register_check s.runtime.world };
    })
    pure true

  -- `_async_update_listener`
  unfoldable pub async_update_listener : EntryAction (Unit {0})
  async_update_listener = on_world h.reload

  -- `async_remove_config_entry_device`
  unfoldable pub async_remove_config_entry_device : RegistryDevice → EntryAction Bool
  async_remove_config_entry_device device = pure true
