-- ===== src/Storage.antt =====
-- custom_components/danalock_ble/storage.py: the login tokens of an entry and their store. The store
-- of Home Assistant does the calls that it is given one after the other, in their order.
pub mod Reload
use danalock_ble_ha_integrat.Prelude.{
  String, ◌<>◌, Option, none, some, List, [], ◌∷◌, ◌++◌, string_eq,
}
use danalock_ble_ha_integrat.Prelude.Dict.{Dict, lookup}

-- `token_store_key`
abbrev pub token_store_key : String → String
token_store_key entry_id = "danalock_ble_tokens_" <> entry_id

-- `Json` is the type of the stored values, `Float` that of the expiry.
pub record TokenData (Json Float : Type 0) : Type 0 where
  pub access_token : Json
  pub refresh_token : Json
  pub expires_at : Float

-- What the store gives: a dict, or anything else that was in the file.
pub data Stored (Json : Type 0) : Type 0 where
  dict : Dict String Json → Stored Json
  no_dict : Stored Json

-- `token` is `_token`; `stored` is what the store of the entry keeps, if anything; `pending` are the
-- calls of the store whose tasks were started and have not run, the oldest first: what each saves,
-- or none for a removal.
pub record TokenStorage (Json Float : Type 0) : Type 0 where
  pub token : Option (TokenData Json Float)
  pub stored : Option (Stored Json)
  pub pending : List (Option (Stored Json))

-- What the store keeps after these calls.
unfoldable pub after_calls :
    {Json : Type 0} → List (Option (Stored Json)) → Option (Stored Json) → Option (Stored Json)
after_calls [] stored = stored
after_calls (call ∷ rest) stored = after_calls rest call

-- `of_float` writes a float as a value, `float` is Python's conversion, `none` where it raises
-- TypeError or ValueError.
module _ {Json Float : Type 0} (of_float : Float → Json) (float : Json → Option Float) where
  -- `_token_to_dict`
  unfoldable pub token_to_dict : TokenData Json Float → Dict String Json
  token_to_dict t =
      ("access_token", t.access_token)
      ∷ ("refresh_token", t.refresh_token)
      ∷ ("expires_at", of_float t.expires_at)
      ∷ []

  -- The `try` of `_token_from_dict`; `none` is each of the exceptions that it catches.
  unfoldable pub token_of : Dict String Json → Option (TokenData Json Float)
  token_of d = elim (lookup "access_token" d) [
    | none ↦ none
    | some access ↦ elim (lookup "refresh_token" d) [
      | none ↦ none
      | some refresh ↦ elim (lookup "expires_at" d) [
        | none ↦ none
        | some value ↦ elim (float value) [
          | none ↦ none
          | some expires ↦
              some (record { access_token = access; refresh_token = refresh; expires_at = expires })
        ]
      ]
    ]
  ]

  -- `_token_from_dict`; an empty store gives None, which is no dict.
  unfoldable pub token_from_dict : Option (Stored Json) → Option (TokenData Json Float)
  unfolding token_of
  token_from_dict (some (dict d)) = token_of d
  token_from_dict _ = none

  unfoldable pub async_load : TokenStorage Json Float → TokenStorage Json Float
  async_load s = record s { token = token_from_dict s.stored }

  -- Awaited: when it returns, the store has done this call and those before it.
  unfoldable pub async_save :
      TokenData Json Float → TokenStorage Json Float → TokenStorage Json Float
  async_save t s = record { token = some t; stored = some (dict (token_to_dict t)); pending = [] }

  unfoldable pub async_remove : TokenStorage Json Float → TokenStorage Json Float
  async_remove s = record { token = none; stored = none; pending = [] }

  -- `save` and `clear` start tasks that call the store.
  unfoldable pub save : TokenData Json Float → TokenStorage Json Float → TokenStorage Json Float
  save t s = record s {
    token = some t;
    pending = s.pending ++ (some (dict (token_to_dict t)) ∷ []);
  }

  unfoldable pub clear : TokenStorage Json Float → TokenStorage Json Float
  clear s = record s { token = none; pending = s.pending ++ (none ∷ []) }

  -- The oldest task runs to its end.
  unfoldable pub run_task : TokenStorage Json Float → TokenStorage Json Float
  run_task s = elim s.pending [ [] ↦ s | call ∷ rest ↦ record s { stored = call; pending = rest } ]

  -- `__init__`, over what the store of the entry keeps.
  abbrev pub new_storage : Option (Stored Json) → TokenStorage Json Float
  new_storage stored = record { token = none; stored = stored; pending = [] }
