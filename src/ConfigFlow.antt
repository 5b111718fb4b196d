-- ===== src/ConfigFlow.antt =====
-- custom_components/danalock_ble/config_flow.py: `DanalockConfigFlow`. `ConfigFlow.Options` has the
-- options flow, `ConfigFlow.Username` the normalization of a username, on ASCII text.
pub mod Username
pub mod Letters
pub mod Identity
pub mod Options
pub mod Clients
pub mod Outcome
pub mod Answers
pub mod Handoff
use danalock_ble_ha_integrat.Prelude.{
  ℕ, suc, ◌-◌, String, Bool, true, false, Option, none, some, List, [], ◌∷◌, ◌==◌, string_eq,
  if◌then◌else◌,
}
use danalock_ble_ha_integrat.Prelude.Dict.{Dict, insert}
use danalock_ble_ha_integrat.Prelude.Errors.{
  Exn, Result, ok, raised, Action, pure, raise, ◌>>=◌, ◌>>◌, catch, try_finally, modify, gets,
  auth_error, cloud_error, http_error, validation_error, abort_flow, is_exception,
}
use danalock_ble_ha_integrat.Outside.{External}
use danalock_ble_ha_integrat.Storage.{TokenData, TokenStorage, async_save}
use danalock_ble_ha_integrat.Entry.{Summary}
unfoldable pub use Username.{strip, lower, normalized_username}

-- What the flow calls: the cloud client with its token memory, and the flow manager of Home Assistant.
-- `set_unique_id` may abort the flow for one in progress; `is_configured` says whether an entry has
-- this unique id.
pub record Login (W : Type 0) : Type 1 where
  pub Json : Type 0
  pub Float : Type 0
  pub of_float : Float → Json
  pub float : Json → Option Float
  pub new_client : External W (Unit {0})
  pub login_password : String → String → External W (Unit {0})
  pub devices : External W (List Summary)
  pub aclose : External W (Unit {0})
  pub memory_load : W → TokenData Json Float
  pub set_unique_id : String → External W (Unit {0})
  pub is_configured : String → W → Bool

-- The entry that a reauthentication or a reconfiguration is about.
pub record ConfigEntry (Json Float : Type 0) : Type 0 where
  pub unique_id : Option String
  pub title : String
  pub username : String
  pub storage : TokenStorage Json Float

-- `staged` is `hass.data[DOMAIN][PENDING_TOKENS]`, where a missing dict is an empty one;
-- `open_clients` counts the clients that were built and not closed. `reloads` are the reloads that were
-- scheduled for the entry, the latest first, each as the entry and its store that it would find.
pub record Flow (W Json Float : Type 0) : Type 0 where
  pub world : W
  pub staged : Dict String (TokenData Json Float)
  pub open_clients : ℕ
  pub entry : ConfigEntry Json Float
  pub reloads : List (ConfigEntry Json Float)

-- A form with its error base, a new entry, or the end of the flow after the entry was updated.
pub data FlowResult : Type 0 where
  form : String → Option String → FlowResult
  created : String → String → FlowResult
  updated : FlowResult

unfoldable pub is_own : String → Option String → Bool
is_own unique_id none = false
is_own unique_id (some own) = unique_id == own

-- `except _ValidationError as err`, and the form of the step behind it.
unfoldable pub refused_with : String → Exn → Result FlowResult
refused_with step_id (validation_error base) = ok (form step_id (some base))
refused_with step_id e = raised e

module _ {W : Type 0} (l : Login W) where
  abbrev pub FlowAction : Type 0 → Type 0
  FlowAction A = Action (Flow W l.Json l.Float) A

  abbrev pub on_flow_world : {A : Type 0} → External W A → FlowAction A
  on_flow_world f s = let (r, w) = f s.world in (r, record s { world = w })

  -- `stage_pending_tokens`
  unfoldable pub stage_pending_tokens :
      String → TokenData l.Json l.Float → Flow W l.Json l.Float → Flow W l.Json l.Float
  stage_pending_tokens unique_id token s = record s { staged = insert unique_id token s.staged }

  unfoldable pub refuse_taken : Bool → FlowAction (Unit {0})
  refuse_taken true = raise (abort_flow "already_configured")
  refuse_taken false = pure tt

  -- `async_set_unique_id` and `_abort_if_unique_id_configured`
  unfoldable pub claim : String → FlowAction (Unit {0})
  claim unique_id = do
    on_flow_world (l.set_unique_id unique_id)
    taken ← gets (λ s. l.is_configured unique_id s.world)
    refuse_taken taken

  -- The `except` clauses of the inner `try` of `_async_validate`.
  unfoldable pub on_login_error : Exn → FlowAction (List Summary)
  on_login_error (auth_error m) = raise (validation_error "invalid_auth")
  on_login_error (http_error m) = raise (validation_error "cannot_connect")
  on_login_error (cloud_error m) = raise (validation_error "cannot_connect")
  on_login_error e = if is_exception e then raise (validation_error "unknown") else raise e

  unfoldable pub refuse_empty : List Summary → FlowAction (Unit {0})
  refuse_empty [] = raise (validation_error "no_keys")
  refuse_empty (d ∷ rest) = pure tt

  -- The outer `try` of `_async_validate`.
  unfoldable pub log_in : String → String → FlowAction (Unit {0})
  log_in username password = do
    summaries ←
        catch (do on_flow_world (l.login_password username password); on_flow_world l.devices)
          on_login_error
    refuse_empty summaries

  unfoldable pub close_login : FlowAction (Unit {0})
  close_login = do
    on_flow_world l.aclose
    modify (λ s. record s { open_clients = s.open_clients - 1 })

  -- `_async_validate`, from the outer `try` on.
  unfoldable pub with_client : String → String → FlowAction (TokenData l.Json l.Float)
  with_client username password = do
    try_finally (log_in username password) close_login
    gets (λ s. l.memory_load s.world)

  -- `_async_validate`
  unfoldable pub validate : String → String → FlowAction (TokenData l.Json l.Float)
  validate username password = do
    on_flow_world l.new_client
    modify (λ s. record s { open_clients = suc s.open_clients })
    with_client username password

  -- The `else` branch of `async_step_user`.
  unfoldable pub create : String → String → TokenData l.Json l.Float → FlowAction FlowResult
  create username unique_id token = do
    modify (stage_pending_tokens unique_id token)
    pure (created username username)

  -- `try: token = … except … else: …` of a step.
  unfoldable pub answered :
      String
      → (TokenData l.Json l.Float → FlowAction FlowResult)
      → Result (TokenData l.Json l.Float) × Flow W l.Json l.Float
      → Result FlowResult × Flow W l.Json l.Float
  answered step_id on_token (ok token, s) = on_token token s
  answered step_id on_token (raised e, s) = (refused_with step_id e, s)

  -- `async_step_user`
  unfoldable pub step_user : Option (String × String) → FlowAction FlowResult
  step_user none = pure (form "user" none)
  step_user (some (user, password)) =
      let username = strip user in
      let unique_id = normalized_username username in
      do
        claim unique_id
        λ s. answered "user" (create username unique_id) (validate username password s)

  -- `await DanalockTokenStorage(…).async_save(token)`
  unfoldable pub save_token :
      TokenData l.Json l.Float → Flow W l.Json l.Float → Flow W l.Json l.Float
  save_token token s = record s {
    entry = record (s.entry) { storage = async_save l.of_float l.float token s.entry.storage };
  }

  -- The writes of `async_update_reload_and_abort` in the entry; the unique id is written if it changed.
  unfoldable pub write_entry : String → Flow W l.Json l.Float → Flow W l.Json l.Float
  write_entry username s =
      let unique_id = normalized_username username in
      record s {
        entry = record (s.entry) {
          unique_id =
              if is_own unique_id s.entry.unique_id then s.entry.unique_id else some unique_id;
          title = username;
          username = username;
        };
      }

  -- The reload that it schedules.
  unfoldable pub schedule_reload : Flow W l.Json l.Float → Flow W l.Json l.Float
  schedule_reload s = record s { reloads = s.entry ∷ s.reloads }

  -- `_async_update_after_revalidation`
  unfoldable pub update_entry : String → TokenData l.Json l.Float → FlowAction FlowResult
  unfolding save_token write_entry schedule_reload
  update_entry username token = do
    modify (save_token token)
    modify (write_entry username)
    modify schedule_reload
    pure updated

  unfoldable pub claim_unless : Bool → String → FlowAction (Unit {0})
  claim_unless true unique_id = pure tt
  claim_unless false unique_id = claim unique_id

  -- The test of the unique id in `_async_revalidation_step`.
  unfoldable pub claim_changed : String → FlowAction (Unit {0})
  claim_changed unique_id s = claim_unless (is_own unique_id s.entry.unique_id) unique_id s

  -- `_async_revalidation_step`
  unfoldable pub revalidation_step : String → Option (String × String) → FlowAction FlowResult
  revalidation_step step_id none = pure (form step_id none)
  revalidation_step step_id (some (user, password)) =
      let username = strip user in
      do
        claim_changed (normalized_username username)
        λ s. answered step_id (update_entry username) (validate username password s)

  unfoldable pub step_reauth_confirm : Option (String × String) → FlowAction FlowResult
  step_reauth_confirm input = revalidation_step "reauth_confirm" input

  -- `async_step_reauth`
  unfoldable pub step_reauth : FlowAction FlowResult
  unfolding step_reauth_confirm
  step_reauth = step_reauth_confirm none

  unfoldable pub step_reconfigure : Option (String × String) → FlowAction FlowResult
  step_reconfigure input = revalidation_step "reconfigure" input
