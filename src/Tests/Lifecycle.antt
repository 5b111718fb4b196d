-- ===== src/Tests/Lifecycle.antt =====
-- The setup and the unload of an entry at concrete data.
use danalock_ble_ha_integrat.Prelude.{
  String, Bool, ℕ, suc, ◌*◌, true, false, none, some, List, [], ◌∷◌, ◌≡◌, ◌≢◌, ◌∙◌, refl, ap, sym,
  string_eq, nat_eq,
}
use danalock_ble_ha_integrat.Prelude.Dict.{keys, lookup, insert}
use danalock_ble_ha_integrat.Prelude.Errors.{ok, raised, other, bleak_error}
use danalock_ble_ha_integrat.Broadcast.{new_monitor, start, check_stale}
use danalock_ble_ha_integrat.Outside.{fetched}
use danalock_ble_ha_integrat.KeyManager.Coherence.{IsCoherent}
use danalock_ble_ha_integrat.KeyManager.Timer.{new_background}
use danalock_ble_ha_integrat.Timers.{IsIdle-empty, arm, expire}
use danalock_ble_ha_integrat.KeyManager.{key, close, bind_controls}
use danalock_ble_ha_integrat.Storage.{async_load, token_from_dict, new_storage}
use danalock_ble_ha_integrat.Entry.{
  Summary, Surroundings, RuntimeData, Entry, load_tokens, pop_pending_tokens, supported,
  is_supported_device, register_devices, create_devices, is_stale,
}
use danalock_ble_ha_integrat.Entry.Setup.{
  async_setup_entry, fetch_account, new_cloud_client, fetch_keys, set_up, publish, start_objects,
  new_controls, new_control, start_monitor, start_refresh, close_client,
}
use danalock_ble_ha_integrat.Entry.Unload.{
  release_data, release, disconnect_all, async_unload_entry,
}
use danalock_ble_ha_integrat.Entry.Holds.{IsOff, Holds, Phase, unloaded, loaded}
use danalock_ble_ha_integrat.Entry.Lifecycle.{
  sets_up, unloads, handles, fires, ends, Alive, Run, Run-Holds, setup_phase, setup_flying,
  unload_phase,
}
use danalock_ble_ha_integrat.Entry.Handlers.{checked}
use danalock_ble_ha_integrat.KeyManager.Timer.{
  begin_background, end_background, start_background, schedule_next,
}
use danalock_ble_ha_integrat.Const.{option_refresh_hours}
use danalock_ble_ha_integrat.Entry.Account.{
  fetch_account-calls, setup_leaks_client, unload_leaks_client, setup-IsCoherent,
}
use danalock_ble_ha_integrat.Platforms.{NewEntity, lock, setup_platform}
use danalock_ble_ha_integrat.Platforms.Once.{count, count_id}
use danalock_ble_ha_integrat.Entry.Populated.{setup-entities}
use danalock_ble_ha_integrat.Tests.Samples.{outside, stuck, runtime, new_key}

-- Two locks and a bridge, of a cloud without failures; the registry has one device that is gone.
abbrev account : List Summary
account =
    record { serial = "aa"; name = some "Front"; device_type = some "danalockv3" }
    ∷ record { serial = "cc"; name = none; device_type = some "bridge" }
    ∷ record { serial = "bb"; name = none; device_type = none }
    ∷ []

abbrev around : Surroundings ℕ
around = record {
  Json = ℕ;
  Float = ℕ;
  of_float = λ x. x;
  float = λ x. some x;
  new_client = λ w. (ok tt, suc w);
  devices = λ w. (ok account, suc w);
  aclose = λ w. (ok tt, suc w);
  get_or_create = λ serial name model w. suc w;
  entry_devices = λ w. record { id = "old"; serials = "zz" ∷ [] } ∷ [];
  remove_device = λ id w. suc w;
  setup_platforms = λ w. (ok tt, suc w);
  unload_platforms = λ w. (ok true, suc w);
  add_update_listener = λ w. suc w;
  register_check = λ w. suc w;
  reload = λ w. (ok tt, suc w);
  is_registered = λ w. true;
  now = λ w. w;
  draw = λ n. 0;
  is_hex = λ serial. true;
}

-- The same with a cloud whose list of devices cannot be read.
abbrev broken : Surroundings ℕ
broken = record around { devices = λ w. (raised (other "no list"), suc w) }

abbrev new_entry : Entry ℕ ℕ ℕ
new_entry = record {
  runtime = record runtime { monitor = new_monitor []; controls = []; keys = [] };
  background = new_background;
  runtime_data = none;
  tokens = record {
    storage = new_storage (λ x. x) (λ x. some x) none;
    staged = none;
    unique_id = some "user@example.org";
  };
  clients = [];
  next_client = 0;
  removed = [];
}

abbrev set_up_entry : Entry ℕ ℕ ℕ
set_up_entry = (async_setup_entry outside around [] new_entry).1

new_entry-Holds : Holds false unloaded new_entry
unfolding Holds IsOff new_monitor
new_entry-Holds = (refl, (refl, refl, refl), (IsIdle-empty, λ h. absurd cc))

set_up_test : (async_setup_entry outside around [] new_entry).0 ≡ ok true
unfolding async_setup_entry load_tokens async_load token_from_dict pop_pending_tokens
    new_cloud_client fetch_account supported is_supported_device fetch_keys insert set_up publish
    register_devices create_devices start_objects new_controls new_control key lookup string_eq
    start_monitor is_stale
set_up_test = refl

-- The account is set up, the devices are checked, the key refresh begins, the entry is unloaded, and the
-- refresh ends.
abbrev checked_entry : Entry ℕ ℕ ℕ
checked_entry = record set_up_entry {
  runtime = record (set_up_entry.runtime) { monitor = check_stale 7 set_up_entry.runtime.monitor };
}

abbrev refreshing_entry : Entry ℕ ℕ ℕ
refreshing_entry = record checked_entry {
  background =
      begin_background
        (record (checked_entry.background) { slot = expire 0 checked_entry.background.slot });
}

abbrev unloaded_entry : Entry ℕ ℕ ℕ
unloaded_entry = (async_unload_entry outside around refreshing_entry).1

abbrev refreshed_entry : Entry ℕ ℕ ℕ
refreshed_entry = record unloaded_entry {
  background = (end_background (λ n. 0) 9 (ok tt) unloaded_entry.background).1;
}

checking_entry : set_up_entry.runtime.monitor.stale_timer ≡ true
unfolding async_setup_entry load_tokens async_load token_from_dict pop_pending_tokens
    new_cloud_client fetch_account supported is_supported_device fetch_keys insert set_up publish
    register_devices create_devices start_objects new_controls new_control key lookup string_eq
    start_monitor is_stale start start_refresh bind_controls
checking_entry = refl

armed_entry : lookup 0 checked_entry.background.slot.live ≢ none
unfolding async_setup_entry load_tokens async_load token_from_dict pop_pending_tokens
    new_cloud_client fetch_account supported is_supported_device fetch_keys insert set_up publish
    register_devices create_devices start_objects new_controls new_control key lookup string_eq
    start_monitor is_stale bind_controls start_refresh start_background schedule_next
    option_refresh_hours arm nat_eq
armed_entry = λ h. cc

unload_test : (async_unload_entry outside around refreshing_entry).0 ≡ ok true
unfolding async_setup_entry load_tokens async_load token_from_dict pop_pending_tokens
    new_cloud_client fetch_account supported is_supported_device fetch_keys insert set_up publish
    register_devices create_devices start_objects new_controls new_control key lookup string_eq
    start_monitor is_stale start_refresh close_client async_unload_entry release_data release
    disconnect_all close bind_controls
unload_test = refl

abbrev at : Entry ℕ ℕ ℕ → Phase → Bool → Alive outside around
at e phase flying = record { entry = e; phase = phase; flying = flying }

set_up-Run : Run outside around (at set_up_entry loaded false)
set_up-Run = Run.next (Run.created new_entry-Holds) (
    sets_up [] refl
      (ap (λ r. at set_up_entry (setup_phase r) (setup_flying false r)) (sym set_up_test)))

refreshing-Run : Run outside around (at refreshing_entry loaded true)
refreshing-Run =
    Run.next {s = at checked_entry loaded false}
      (Run.next set_up-Run (handles checked_entry.runtime (checked 7 checking_entry refl) refl))
      (fires 0 armed_entry refl)

refreshed-Run : Run outside around (at refreshed_entry unloaded false)
refreshed-Run =
    Run.next {s = at unloaded_entry unloaded true}
      (Run.next refreshing-Run
        (unloads refl (ap (λ r. at unloaded_entry (unload_phase r) true) (sym unload_test))))
      (ends 9 (ok tt) refl refl)

Run-Holds_example : Holds false unloaded refreshed_entry
Run-Holds_example =
    Run-Holds outside around (λ serial force w e h. cc) (λ w e h. cc) (λ w. refl) (λ f w. refl)
      (λ serial. refl) (λ w. refl) refreshed-Run

fetch_account-calls_test :
    (fetch_account outside around new_entry).1.runtime.calls
    ≡ fetched "bb" false ∷ fetched "aa" false ∷ []
unfolding fetch_account fetch_keys insert supported is_supported_device string_eq
fetch_account-calls_test =
    fetch_account-calls outside around new_entry account (("aa", new_key) ∷ ("bb", new_key) ∷ [])
      refl

setup-IsCoherent_example : IsCoherent set_up_entry.runtime
setup-IsCoherent_example =
    setup-IsCoherent outside around (λ serial. refl) [] true new_entry set_up_test

setup_leaks_client_example :
    let (r, t) = async_setup_entry outside broken [] new_entry in
    (r ≡ raised (other "no list")) × (t.clients ≡ 0 ∷ [])
unfolding fetch_account
setup_leaks_client_example =
    setup_leaks_client outside broken [] (other "no list") new_entry refl refl refl

abbrev loaded_data : RuntimeData
loaded_data = record { client = 4; names = []; device_types = []; has_monitor = true }

abbrev loaded_entry : Entry ℕ ℕ ℕ
loaded_entry = record new_entry {
  runtime = runtime;
  runtime_data = some loaded_data;
  clients = 4 ∷ [];
  next_client = 5;
}

unload_leaks_client_example :
    let (r, t) = async_unload_entry stuck around loaded_entry in
    (r ≡ raised (bleak_error "gone")) × (t.clients ≡ 4 ∷ []) × (t.background.stopped ≡ true)
unfolding disconnect_all close
unload_leaks_client_example =
    unload_leaks_client stuck around (bleak_error "gone") loaded_data loaded_entry refl refl refl

keys_test : keys set_up_entry.runtime.keys ≡ "aa" ∷ "bb" ∷ []
unfolding async_setup_entry load_tokens async_load token_from_dict pop_pending_tokens
    new_cloud_client fetch_account supported is_supported_device fetch_keys insert set_up publish
    register_devices create_devices start_objects new_controls new_control key lookup string_eq
    start_monitor is_stale start_refresh bind_controls
keys_test = refl

some_key_test : keys set_up_entry.runtime.keys ≢ []
some_key_test empty = two_keys (sym keys_test ∙ empty)
  where
    two_keys : ◌≢◌ {A = List String} ("aa" ∷ "bb" ∷ []) []
    two_keys h = cc

setup-entities_example :
    (d : RuntimeData) × (set_up_entry.runtime_data ≡ some d)
    × (es : List NewEntity) × (setup_platform lock d.has_monitor set_up_entry.runtime ≡ some es)
    × (count_id "bb" "lock" es ≡ count "bb" (keys set_up_entry.runtime.keys) * 1)
unfolding string_eq
setup-entities_example =
    setup-entities outside around (λ serial. refl) [] true lock "bb" "lock" new_entry set_up_test
      some_key_test
