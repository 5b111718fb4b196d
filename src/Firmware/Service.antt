-- ===== src/Firmware/Service.antt =====
-- custom_components/danalock_ble/update.py: `async_added_to_hass`, a whole `async_update`, with nothing
-- else between its parts, and the handler of the action `check_firmware_updates`.
use danalock_ble_ha_integrat.Prelude.{
  String, ◌<>◌, Bool, true, false, Option, none, some, List, [], ◌∷◌, string_eq,
}
use danalock_ble_ha_integrat.Prelude.Dict.{Dict, lookup, insert}
use danalock_ble_ha_integrat.Prelude.Errors.{
  Result, ok, Action, ◌>>=◌, ◌>>◌, pure, raise, gets, service_validation_error,
}
use danalock_ble_ha_integrat.Pydanalock.{Version}
use danalock_ble_ha_integrat.Outside.{Outside, External, Runtime}
use danalock_ble_ha_integrat.Firmware.{
  CycleOutcome, LatestFirmware, Values, Entity, restore, refresh,
}
use danalock_ble_ha_integrat.Firmware.Cycles.{
  Schedule, declined, begin_cycle, begin_update, end_cycle, end_update,
}

-- A firmware entity beside the runtime objects that it shares with the others.
pub record FirmwareEntity : Type 0 where
  pub serial : String
  pub values : Values
  pub schedule : Schedule

-- An entity of the update platform, of this integration or of another one.
pub data UpdateEntity : Type 0 where
  firmware : FirmwareEntity → UpdateEntity
  foreign : UpdateEntity

-- `loaded` says that `hass.data` has the component of the update platform.
pub record Fleet (W : Type 0) : Type 0 where
  pub runtime : Runtime W
  pub loaded : Bool
  pub entities : Dict String UpdateEntity

-- `async_added_to_hass`, with the attributes of the last state; the task of the first cycle begins.
unfoldable pub added_to_hass : Option (Dict String String) → FirmwareEntity → Bool × FirmwareEntity
added_to_hass attributes e =
    let (refreshes, schedule) = begin_cycle e.schedule in
    (refreshes, record e { values = restore attributes e.values; schedule = schedule })

module _ (o : Outside) (latest_firmware : String → External o.World LatestFirmware)
    (version_dot : Version → String) where
  -- `async_update` behind the refresh.
  unfoldable pub updated :
      String
      → FirmwareEntity
      → Result CycleOutcome × Entity o.World
      → Result (Unit {0}) × (FirmwareEntity × Runtime o.World)
  updated entity_id e (r, s) =
      let (outcome, schedule) = end_cycle r e.schedule in
      (
        end_update entity_id outcome,
        (record e { values = s.values; schedule = schedule }, s.runtime),
      )

  -- `_async_cycle` from its early returns on, and the end of `async_update`.
  unfoldable pub run_update :
      String
      → FirmwareEntity
      → Runtime o.World
      → Bool × Schedule
      → Result (Unit {0}) × (FirmwareEntity × Runtime o.World)
  unfolding updated
  run_update entity_id e rt (true, schedule) =
      updated entity_id (record e { schedule = schedule })
        (refresh o latest_firmware version_dot
          (record { runtime = rt; serial = e.serial; values = e.values }))
  run_update entity_id e rt (false, schedule) =
      (end_update entity_id (ok declined), (record e { schedule = schedule }, rt))

  -- `async_update`
  unfoldable pub update : String → Action (FirmwareEntity × Runtime o.World) (Unit {0})
  unfolding run_update
  update entity_id (e, rt) = run_update entity_id e rt (begin_update e.schedule)

  unfoldable pub put_back :
      String
      → Result (Unit {0}) × (FirmwareEntity × Runtime o.World)
      → Fleet o.World
      → Result (Unit {0}) × Fleet o.World
  put_back entity_id (r, (e, rt)) s =
      (r, record s { runtime = rt; entities = insert entity_id (firmware e) s.entities })

  unfoldable pub check_found : String → Option UpdateEntity → Action (Fleet o.World) (Unit {0})
  unfolding put_back
  check_found entity_id none = raise (service_validation_error ("Unknown entity " <> entity_id))
  check_found entity_id (some foreign) =
      raise (service_validation_error (entity_id <> " is not a danalock firmware entity"))
  check_found entity_id (some (firmware e)) =
      λ s. put_back entity_id (update entity_id (e, s.runtime)) s

  -- One round of the loop of `_async_handle`.
  unfoldable pub check_one : String → Action (Fleet o.World) (Unit {0})
  check_one entity_id s = check_found entity_id (lookup entity_id s.entities) s

  unfoldable pub check_each : List String → Action (Fleet o.World) (Unit {0})
  check_each [] = pure tt
  check_each (entity_id ∷ rest) = do check_one entity_id; check_each rest

  unfoldable pub check_loaded : List String → Bool → Action (Fleet o.World) (Unit {0})
  check_loaded entity_ids true = check_each entity_ids
  check_loaded entity_ids false = raise (service_validation_error "No update entities are loaded")

  -- `_async_handle` behind `_extract_targets`; a set of targets is the list of them in the order in
  -- which the loop takes them.
  unfoldable pub handle : List String → Action (Fleet o.World) (Unit {0})
  unfolding check_loaded
  handle [] = pure tt
  handle (entity_id ∷ rest) = do
    loaded ← gets (λ s. s.loaded)
    check_loaded (entity_id ∷ rest) loaded
