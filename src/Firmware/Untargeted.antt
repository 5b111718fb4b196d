-- ===== src/Firmware/Untargeted.antt =====
-- What a call of the action `check_firmware_updates` leaves alone.
use danalock_ble_ha_integrat.Prelude.{
  String, Bool, true, false, Option, none, some, List, [], ◌∷◌, ◌≡◌, ◌≢◌, refl, arith, ◌∙◌,
  string_eq, contains,
}
use danalock_ble_ha_integrat.Prelude.Dict.{lookup, lookup-insert_ne}
use danalock_ble_ha_integrat.Prelude.Hoare.{Keeps, Keeps-bind}
use danalock_ble_ha_integrat.Pydanalock.{Version}
use danalock_ble_ha_integrat.Outside.{Outside, External}
use danalock_ble_ha_integrat.Firmware.{LatestFirmware}
use danalock_ble_ha_integrat.Firmware.Service.{
  UpdateEntity, firmware, foreign, Fleet, update, put_back, check_found, check_loaded, check_one,
  check_each, handle,
}

module _ (o : Outside) (latest_firmware : String → External o.World LatestFirmware)
    (version_dot : Version → String) where
  module _ (j : String) (before : Option UpdateEntity) where
    abbrev Still : Fleet o.World → Type 0
    Still s = lookup j s.entities ≡ before

    check_found-Still :
        (entity_id : String) (found : Option UpdateEntity)
        → j ≢ entity_id
        → Keeps Still (check_found o latest_firmware version_dot entity_id found)
    unfolding check_found put_back
    check_found-Still entity_id none ne = λ s i. i
    check_found-Still entity_id (some foreign) ne = λ s i. i
    check_found-Still entity_id (some (firmware e)) ne = λ s i.
        lookup-insert_ne j entity_id
          (firmware (update o latest_firmware version_dot entity_id (e, s.runtime)).1.0) s.entities
          ne
        ∙ i

    check_each-Still :
        (ids : List String)
        → contains ids j ≡ false
        → Keeps Still (check_each o latest_firmware version_dot ids)
    unfolding check_each check_one
    check_each-Still [] h = λ s i. i
    check_each-Still (entity_id ∷ ids) h =
        Keeps-bind Still (check_one o latest_firmware version_dot entity_id)
          (λ _. check_each o latest_firmware version_dot ids)
          (λ s.
            check_found-Still entity_id (lookup entity_id s.entities)
              (λ same. absurd (ground (arith, h, same))) s)
          (λ _. check_each-Still ids (ground (arith, h)))

  -- However the action ends, also when a check raises or a target is unknown, an entity that is no
  -- target is as before.
  pub handle-untargeted :
      (ids : List String) (j : String) (s : Fleet o.World)
      → contains ids j ≡ false
      → lookup j (handle o latest_firmware version_dot ids s).1.entities ≡ lookup j s.entities
  unfolding handle check_loaded
  handle-untargeted [] j s h = refl
  handle-untargeted (entity_id ∷ ids) j s h = loaded-same s.loaded
    where
      loaded-same :
          (loaded : Bool)
          → lookup j
              (check_loaded o latest_firmware version_dot (entity_id ∷ ids) loaded s).1.entities
            ≡ lookup j s.entities
      loaded-same true = check_each-Still j (lookup j s.entities) (entity_id ∷ ids) h s refl
      loaded-same false = refl
