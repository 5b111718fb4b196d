-- ===== src/Firmware/Checked.antt =====
-- What a call of the action `check_firmware_updates` leaves behind.
use danalock_ble_ha_integrat.Prelude.{
  String, Bool, true, false, Option, none, some, List, [], ◌∷◌, ◌≡◌, ◌≢◌, refl, arith, ◌==◌,
  string_eq, Bool-cases, inl, inr,
}
use danalock_ble_ha_integrat.Prelude.Dict.{
  Dict, lookup, insert, lookup-insert, lookup-insert_self, AllValues, AllValues-insert,
  AllValues-lookup,
}
use danalock_ble_ha_integrat.Prelude.Errors.{Result, ok, raised}
use danalock_ble_ha_integrat.Prelude.Hoare.{Ends, Triple, Ends-of, Ends-map, ok_of, triple_bind}
use danalock_ble_ha_integrat.Pydanalock.{Version}
use danalock_ble_ha_integrat.Timers.{arm}
use danalock_ble_ha_integrat.Outside.{Outside, External, Runtime}
use danalock_ble_ha_integrat.Firmware.{CycleOutcome, LatestFirmware, Entity, refresh}
use danalock_ble_ha_integrat.Firmware.Cycles.{
  Schedule, begin_cycle, begin_update, end_cycle, end_update,
}
use danalock_ble_ha_integrat.Firmware.Rounds.{Rests, AreRounds, handle-AreRounds}
use danalock_ble_ha_integrat.Firmware.Service.{
  FirmwareEntity, UpdateEntity, firmware, foreign, Fleet, updated, run_update, update, put_back,
  check_found, check_loaded, check_one, check_each, handle,
}

-- The next cycle of the entity has its timer, unless the entity was removed.
abbrev pub IsArmed : FirmwareEntity → Type 0
IsArmed e = e.schedule.attached ≡ true → e.schedule.slot.handle ≢ none

-- The entity of this id is a firmware entity that has the timer of its next cycle or was removed.
abbrev pub IsChecked : Dict String UpdateEntity → String → Type 0
IsChecked d entity_id = (e : FirmwareEntity) × (lookup entity_id d ≡ some (firmware e)) × IsArmed e

abbrev pub AreChecked : Dict String UpdateEntity → List String → Type 0
AreChecked d [] = Unit
AreChecked d (entity_id ∷ rest) = IsChecked d entity_id × AreChecked d rest

module _ (o : Outside) (latest_firmware : String → External o.World LatestFirmware)
    (version_dot : Version → String) where
  end-IsArmed :
      (outcome : CycleOutcome) (e : FirmwareEntity)
      → let t = (end_cycle (ok outcome) e.schedule).1 in
        (t.in_flight ≡ false) × (t.attached ≡ true → t.slot.handle ≢ none)
  unfolding end_cycle arm
  end-IsArmed outcome e = elim (Bool-cases e.schedule.attached) [
    | inl attached ↦ rw attached (refl, λ _ h. cc)
    | inr detached ↦ rw detached (refl, λ h. absurd (ground (arith, h, detached)))
  ]

  updated-Ends :
      (entity_id : String) (e : FirmwareEntity) (x : Result CycleOutcome × Entity o.World)
      → Ends
          (λ _ t. (t.0.schedule.in_flight ≡ false) × IsArmed t.0)
          (λ _ _. Unit {0})
          (updated o latest_firmware version_dot entity_id e x)
  unfolding updated end_cycle end_update
  updated-Ends entity_id e (ok outcome, s) =
      Ends-of (λ _ t. (t.0.schedule.in_flight ≡ false) × IsArmed t.0) (λ _ _. Unit {0})
        (updated o latest_firmware version_dot entity_id e (ok outcome, s))
        (λ _ _. end-IsArmed outcome e) (λ _ _. tt)
  updated-Ends entity_id e (raised x, s) = tt

  run_update-Ends :
      (entity_id : String) (e : FirmwareEntity) (rt : Runtime o.World) (x : Bool × Schedule)
      → (x.0 ≡ false → (x.1.in_flight ≡ false) × (x.1.attached ≡ false))
      → Ends
          (λ _ t. (t.0.schedule.in_flight ≡ false) × IsArmed t.0)
          (λ _ _. Unit {0})
          (run_update o latest_firmware version_dot entity_id e rt x)
  unfolding run_update end_update
  run_update-Ends entity_id e rt (true, schedule) stays =
      updated-Ends entity_id (record e { schedule = schedule })
        (refresh o latest_firmware version_dot
          (record { runtime = rt; serial = e.serial; values = e.values }))
  run_update-Ends entity_id e rt (false, schedule) stays =
      ((stays refl).0, λ attached. absurd (ground (arith, attached, (stays refl).1)))

  begin_update_stays :
      (s : Schedule)
      → s.in_flight ≡ false
      → (begin_update s).0 ≡ false
      → ((begin_update s).1.in_flight ≡ false) × ((begin_update s).1.attached ≡ false)
  unfolding begin_update begin_cycle
  begin_update_stays s rests stays = (ground (arith, rests, stays), ground (arith, rests, stays))

  abbrev Resting : FirmwareEntity × Runtime o.World → Type 0
  Resting t = (t.0.schedule.in_flight ≡ false) × IsArmed t.0

  update-Ends :
      (entity_id : String) (e : FirmwareEntity) (rt : Runtime o.World)
      → e.schedule.in_flight ≡ false
      → Ends
          (λ _. Resting)
          (λ _ _. Unit {0})
          (update o latest_firmware version_dot entity_id (e, rt))
  unfolding update
  update-Ends entity_id e rt rests =
      run_update-Ends entity_id e rt (begin_update e.schedule) (begin_update_stays e.schedule rests)

  -- Every entity rests, and those of these ids have their timers.
  abbrev After : List String → Fleet o.World → Type 0
  After done s = AllValues Rests s.entities × AreChecked s.entities done

  IsChecked-insert :
      (d : Dict String UpdateEntity) (j entity_id : String) (e : FirmwareEntity)
      → IsArmed e
      → IsChecked d j
      → IsChecked (insert entity_id (firmware e) d) j
  IsChecked-insert d j entity_id e armed (f, found, was) = elim (Bool-cases (j == entity_id)) [
    | inl same ↦ (e, ground (arith, lookup-insert j entity_id (firmware e) d, same), armed)
    | inr differ ↦ (f, ground (arith, lookup-insert j entity_id (firmware e) d, differ, found), was)
  ]

  AreChecked-insert :
      (d : Dict String UpdateEntity) (js : List String) (entity_id : String) (e : FirmwareEntity)
      → IsArmed e
      → AreChecked d js
      → AreChecked (insert entity_id (firmware e) d) js
  AreChecked-insert d [] entity_id e armed checked = tt
  AreChecked-insert d (j ∷ js) entity_id e armed (first, others) = (
    IsChecked-insert d j entity_id e armed first,
    AreChecked-insert d js entity_id e armed others,
  )

  put_back-After :
      (done : List String) (entity_id : String) (s : Fleet o.World)
      (x : Result (Unit {0}) × (FirmwareEntity × Runtime o.World))
      → After done s
      → Ends (λ _. Resting) (λ _ _. Unit {0}) x
      → Ends
          (λ _. After (entity_id ∷ done))
          (λ _ _. Unit {0})
          (put_back o latest_firmware version_dot entity_id x s)
  unfolding put_back
  put_back-After done entity_id s (ok u, (e, rt)) (rest, checked) (rests, armed) = (
    AllValues-insert Rests entity_id (firmware e) s.entities rests rest,
    (
      (e, lookup-insert_self entity_id (firmware e) s.entities, armed),
      AreChecked-insert s.entities done entity_id e armed checked,
    ),
  )
  put_back-After done entity_id s (raised x, t) after h = tt

  check_found-After :
      (done : List String) (entity_id : String) (found : Option UpdateEntity) (s : Fleet o.World)
      → lookup entity_id s.entities ≡ found
      → After done s
      → Ends
          (λ _. After (entity_id ∷ done))
          (λ _ _. Unit {0})
          (check_found o latest_firmware version_dot entity_id found s)
  unfolding check_found
  check_found-After done entity_id none s h after = tt
  check_found-After done entity_id (some foreign) s h after = tt
  check_found-After done entity_id (some (firmware e)) s h after =
      put_back-After done entity_id s
        (update o latest_firmware version_dot entity_id (e, s.runtime)) after
        (update-Ends entity_id e s.runtime
          (AllValues-lookup Rests entity_id s.entities {v = firmware e} after.0 h))

  check_one-After :
      (done : List String) (entity_id : String)
      → Triple
          (After done)
          (check_one o latest_firmware version_dot entity_id)
          (λ _. After (entity_id ∷ done))
          (λ _ _. Unit {0})
  unfolding check_one
  check_one-After done entity_id s after =
      check_found-After done entity_id (lookup entity_id s.entities) s refl after

  abbrev AfterAll : List String → List String → Fleet o.World → Type 0
  AfterAll done ids s =
      AllValues Rests s.entities × AreChecked s.entities done × AreChecked s.entities ids

  check_each-After :
      (done ids : List String)
      → Triple
          (After done)
          (check_each o latest_firmware version_dot ids)
          (λ _. AfterAll done ids)
          (λ _ _. Unit {0})
  unfolding check_each
  check_each-After done [] = λ s after. (after.0, after.1, tt)
  check_each-After done (entity_id ∷ ids) =
      triple_bind (After done) (λ _. After (entity_id ∷ done))
        (λ _. AfterAll done (entity_id ∷ ids)) (λ _ _. Unit {0})
        (λ _. check_each o latest_firmware version_dot ids)
        (check_one o latest_firmware version_dot entity_id) (check_one-After done entity_id)
        (λ _ s after.
          Ends-map (λ _. AfterAll (entity_id ∷ done) ids) (λ _. AfterAll done (entity_id ∷ ids))
            (λ _ _. Unit {0}) (check_each o latest_firmware version_dot ids s)
            (λ _ t all. (all.0, all.1.1, (all.1.0, all.2)))
            (check_each-After (entity_id ∷ done) ids s after))

  handle-After :
      (ids : List String)
      → Triple
          (After [])
          (handle o latest_firmware version_dot ids)
          (λ _. AfterAll [] ids)
          (λ _ _. Unit {0})
  unfolding handle check_loaded
  handle-After [] = λ s after. (after.0, tt, tt)
  handle-After (entity_id ∷ rest) = λ s after. loaded-After s s.loaded after
    where
      loaded-After :
          (s : Fleet o.World) (loaded : Bool)
          → After [] s
          → Ends
              (λ _. AfterAll [] (entity_id ∷ rest))
              (λ _ _. Unit {0})
              (check_loaded o latest_firmware version_dot (entity_id ∷ rest) loaded s)
      loaded-After s true after = check_each-After [] (entity_id ∷ rest) s after
      loaded-After s false after = tt

  -- If no check is in flight, an action that returns has checked every target, one after the other:
  -- each is a firmware entity of this integration, and unless it was removed one refresh of it ran,
  -- from the state that the checks before it left, and did not fail; the values that this refresh
  -- gave were stored and the entity written once. Afterwards each has the timer of its next cycle,
  -- unless it was removed, and again no check is in flight.
  pub handle-AreChecked :
      (ids : List String) (s : Fleet o.World)
      → AllValues Rests s.entities
      → (handle o latest_firmware version_dot ids s).0 ≡ ok tt
      → let t = (handle o latest_firmware version_dot ids s).1 in
        AreRounds o latest_firmware version_dot ids s t
        × AreChecked t.entities ids
        × AllValues Rests t.entities
  handle-AreChecked ids s rests done =
      let all =
        ok_of (λ _. AfterAll [] ids) (λ _ _. Unit {0}) (handle o latest_firmware version_dot ids s)
          tt (handle-After ids s (rests, tt)) done in
      (handle-AreRounds o latest_firmware version_dot ids s rests done, all.2, all.0)
