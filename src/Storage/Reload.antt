-- ===== src/Storage/Reload.antt =====
-- What a reload of the entry finds of the tokens.
use danalock_ble_ha_integrat.Prelude.{Option, some, ◌≡◌}
use danalock_ble_ha_integrat.Storage.{
  TokenData, Stored, TokenStorage, after_calls, async_load, async_save, async_remove, save, clear,
  run_task, new_storage,
}

module _ {Json Float : Type 0} (of_float : Float → Json) (float : Json → Option Float) where
  -- The calls of a loaded storage, and the tasks that they started.
  pub data Step (s t : TokenStorage Json Float) : Type 0 where
    saved : (token : TokenData Json Float) → t ≡ save of_float float token s → Step s t
    saved_awaited :
        (token : TokenData Json Float) → t ≡ async_save of_float float token s → Step s t
    cleared : t ≡ clear of_float float s → Step s t
    removed : t ≡ async_remove of_float float s → Step s t
    ran : t ≡ run_task of_float float s → Step s t

  -- The states after the load at setup.
  pub data Reach : TokenStorage Json Float → Type 0 where
    setup :
        (stored : Option (Stored Json))
        → Reach (async_load of_float float (new_storage of_float float stored))
    next : {s t : TokenStorage Json Float} → Reach s → Step s t → Reach t

  -- The token that a new storage has after it loaded this store.
  abbrev pub reloaded : Option (Stored Json) → Option (TokenData Json Float)
  reloaded stored = (async_load of_float float (new_storage of_float float stored)).token

  module _ (written : (x : Float) → float (of_float x) ≡ some x) where
    -- The token in memory is the one of the store once the tasks have run.
    Agrees : TokenStorage Json Float → Type 0
    Agrees s = reloaded (after_calls s.pending s.stored) ≡ s.token
