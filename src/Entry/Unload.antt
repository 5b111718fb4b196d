-- ===== src/Entry/Unload.antt =====
-- custom_components/danalock_ble/__init__.py: `async_unload_entry` and `async_remove_entry`.
use danalock_ble_ha_integrat.Prelude.{
  String, Bool, true, false, Option, none, some, List, [], ◌∷◌, string_eq, if◌then◌else◌,
}
use danalock_ble_ha_integrat.Prelude.Dict.{erase}
use danalock_ble_ha_integrat.Prelude.Errors.{Action, pure, ◌>>=◌, ◌>>◌, modify, gets}
use danalock_ble_ha_integrat.Broadcast.{stop}
use danalock_ble_ha_integrat.Outside.{Outside, Runtime}
use danalock_ble_ha_integrat.KeyManager.{close}
use danalock_ble_ha_integrat.KeyManager.Timer.{stop_background}
use danalock_ble_ha_integrat.Storage.{async_remove}
use danalock_ble_ha_integrat.Entry.{Surroundings, RuntimeData, Tokens, Entry}
use danalock_ble_ha_integrat.Entry.Setup.{on_runtime, on_world, EntryAction, close_client}

-- The loop over `runtime.controls`.
unfoldable pub disconnect_all : (o : Outside) → List String → Action (Runtime o.World) (Unit {0})
disconnect_all o [] = pure tt
disconnect_all o (serial ∷ rest) = do close o serial; disconnect_all o rest

module _ (o : Outside) (h : Surroundings o.World) where
  abbrev pub monitor_stopped :
      RuntimeData → Entry o.World h.Json h.Float → Entry o.World h.Json h.Float
  monitor_stopped d s =
      if d.has_monitor
      then record s { runtime = record (s.runtime) { monitor = stop s.runtime.monitor } }
      else s

  abbrev pub refresh_stopped : Entry o.World h.Json h.Float → Entry o.World h.Json h.Float
  refresh_stopped s = record s { background = stop_background s.background }

  -- The releases, in order.
  unfoldable pub release : RuntimeData → EntryAction o h (Unit {0})
  release d = do
    modify (monitor_stopped d)
    modify refresh_stopped
    controls ← gets (λ s. s.runtime.controls)
    on_runtime (disconnect_all o controls)
    close_client o h d.client

  unfoldable pub release_data : Option RuntimeData → EntryAction o h (Unit {0})
  release_data none = pure tt
  release_data (some d) = release d

  -- `async_unload_entry`
  unfoldable pub async_unload_entry : EntryAction o h Bool
  unfolding release_data
  async_unload_entry = do
    unload_ok ← on_world h.unload_platforms
    data_now ← gets (λ s. s.runtime_data)
    if unload_ok then (do release_data data_now; pure true) else pure false

-- The last lines of `async_remove_entry`.
drop_staged : {J F : Type 0} → Tokens J F → Tokens J F
drop_staged t = elim t.staged [
  | none ↦ t
  | some stage ↦ elim t.unique_id [
    | none ↦ t
    | some unique_id ↦ record t { staged = some (erase unique_id stage) }
  ]
]

-- `async_remove_entry`
unfoldable pub async_remove_entry :
    {J F : Type 0} → (F → J) → (J → Option F) → Tokens J F → Tokens J F
unfolding drop_staged
async_remove_entry of_float float t =
    drop_staged (record t { storage = async_remove of_float float t.storage })
