-- ===== src/Firmware/Rounds.antt =====
-- custom_components/danalock_ble/update.py: the rounds of the loop of `check_firmware_updates`, each
-- with the refresh that it makes.
use danalock_ble_ha_integrat.Prelude.{
  suc, String, true, false, Option, none, some, List, [], ◌∷◌, ◌≡◌, ◌⊎◌, Bool, inl, inr, refl,
  arith, ap, sym, subst, ◌∙◌, string_eq,
}
use danalock_ble_ha_integrat.Prelude.Dict.{
  lookup, insert, AllValues, AllValues-insert, AllValues-lookup,
}
use danalock_ble_ha_integrat.Prelude.Errors.{Result, ok, raised, >>=-ok, >>=-raised}
use danalock_ble_ha_integrat.Pydanalock.{Version}
use danalock_ble_ha_integrat.Outside.{Outside, External, Runtime}
use danalock_ble_ha_integrat.Timers.{cancel}
use danalock_ble_ha_integrat.Firmware.{CycleOutcome, LatestFirmware, Entity, refresh}
use danalock_ble_ha_integrat.Firmware.Cycles.{
  Schedule, begin_cycle, begin_update, end_cycle, end_update,
}
use danalock_ble_ha_integrat.Firmware.Service.{
  FirmwareEntity, UpdateEntity, firmware, foreign, Fleet, updated, run_update, update, put_back,
  check_found, check_one, check_each, check_loaded, handle,
}

-- No cycle of the entity is in flight.
abbrev pub Rests : UpdateEntity → Type 0
Rests (firmware e) = e.schedule.in_flight ≡ false
Rests foreign = Unit

module _ (o : Outside) (latest_firmware : String → External o.World LatestFirmware)
    (version_dot : Version → String) where
  -- The refresh of an entity, as it calls from this state.
  abbrev pub refreshed : FirmwareEntity → Runtime o.World → Result CycleOutcome × Entity o.World
  refreshed e rt =
      refresh o latest_firmware version_dot
        (record { runtime = rt; serial = e.serial; values = e.values })

  -- One successful check turned `e` and `rt` into `f` and `u`: a refresh ran once and did not fail, its
  -- values were stored and written, and its calls were made; a removed entity was left alone.
  abbrev pub IsUpdate : FirmwareEntity → Runtime o.World → FirmwareEntity → Runtime o.World → Type 0
  IsUpdate e rt f u =
      (f.schedule.in_flight ≡ false)
      × ((e.schedule.attached ≡ false) × (f ≡ record e { schedule = f.schedule }) × (u ≡ rt)
          ⊎ (e.schedule.attached ≡ true)
            × ((outcome : CycleOutcome) × ((refreshed e rt).0 ≡ ok outcome)
                × (outcome.failed ≡ false)
                × (f.schedule.written ≡ suc e.schedule.written)
                × (f ≡ record e { values = (refreshed e rt).1.values; schedule = f.schedule })
                × (u ≡ (refreshed e rt).1.runtime)))

  -- A round of this target, from `s` to `t`.
  abbrev pub IsRound : String → Fleet o.World → Fleet o.World → Type 0
  IsRound entity_id s t =
      (e : FirmwareEntity) × (lookup entity_id s.entities ≡ some (firmware e))
      × (f : FirmwareEntity) × (u : Runtime o.World) × IsUpdate e s.runtime f u
      × (t ≡ record s { runtime = u; entities = insert entity_id (firmware f) s.entities })

  -- The rounds of these targets, one after the other.
  abbrev pub AreRounds : List String → Fleet o.World → Fleet o.World → Type 0
  AreRounds [] s t = t ≡ s
  AreRounds (entity_id ∷ rest) s t =
      (u : Fleet o.World) × IsRound entity_id s u × AreRounds rest u t

  updated-IsUpdate :
      (entity_id : String) (e : FirmwareEntity) (rt : Runtime o.World) (schedule : Schedule)
      (x : Result CycleOutcome × Entity o.World)
      → x ≡ refreshed e rt
      → e.schedule.attached ≡ true
      → schedule.attached ≡ true
      → schedule.written ≡ e.schedule.written
      → (updated o latest_firmware version_dot entity_id (record e { schedule = schedule }) x).0
        ≡ ok tt
      → let t =
          (updated o latest_firmware version_dot entity_id
            (record e { schedule = schedule })
            x).1 in
        IsUpdate e rt t.0 t.1
  unfolding updated end_cycle end_update
  updated-IsUpdate entity_id e rt schedule (ok outcome, s) same was attached written done = (
    ground (arith, attached),
    inr (
      was,
      (
        outcome,
        ap (λ y. y.0) (sym same),
        ground (arith, attached, done),
        ground (arith, attached, written),
        ap (λ y. record e { values = y.1.values; schedule = (end_cycle (ok outcome) schedule).1 })
            same,
        ap (λ y. y.1.runtime) same,
      ),
    ),
  )
  updated-IsUpdate entity_id e rt schedule (raised x, s) same was attached written done = cc

  run_update-IsUpdate :
      (entity_id : String) (e : FirmwareEntity) (rt : Runtime o.World) (x : Bool × Schedule)
      → (x.0 ≡ true
          → (e.schedule.attached ≡ true)
            × (x.1.attached ≡ true)
            × (x.1.written ≡ e.schedule.written))
      → (x.0 ≡ false → (e.schedule.attached ≡ false) × (x.1.in_flight ≡ false))
      → (run_update o latest_firmware version_dot entity_id e rt x).0 ≡ ok tt
      → let t = (run_update o latest_firmware version_dot entity_id e rt x).1 in
        IsUpdate e rt t.0 t.1
  unfolding run_update
  run_update-IsUpdate entity_id e rt (true, schedule) goes stays done =
      let (was, attached, written) = goes refl in
      updated-IsUpdate entity_id e rt schedule (refreshed e rt) refl was attached written done
  run_update-IsUpdate entity_id e rt (false, schedule) goes stays done =
      ((stays refl).1, inl ((stays refl).0, refl, refl))

  update-IsUpdate :
      (entity_id : String) (e : FirmwareEntity) (rt : Runtime o.World)
      → e.schedule.in_flight ≡ false
      → (update o latest_firmware version_dot entity_id (e, rt)).0 ≡ ok tt
      → let t = (update o latest_firmware version_dot entity_id (e, rt)).1 in IsUpdate e rt t.0 t.1
  unfolding update begin_update begin_cycle cancel
  update-IsUpdate entity_id e rt rests done =
      run_update-IsUpdate entity_id e rt (begin_update e.schedule)
        (λ goes.
          (ground (arith, rests, goes), ground (arith, rests, goes), ground (arith, rests, goes)))
        (λ stays. (ground (arith, rests, stays), ground (arith, rests, stays))) done

  check_found-IsRound :
      (entity_id : String) (found : Option UpdateEntity) (s : Fleet o.World)
      → lookup entity_id s.entities ≡ found
      → AllValues Rests s.entities
      → (check_found o latest_firmware version_dot entity_id found s).0 ≡ ok tt
      → IsRound entity_id s (check_found o latest_firmware version_dot entity_id found s).1
  unfolding check_found put_back
  check_found-IsRound entity_id none s h rest done = cc
  check_found-IsRound entity_id (some foreign) s h rest done = cc
  check_found-IsRound entity_id (some (firmware e)) s h rest done =
      let t = (update o latest_firmware version_dot entity_id (e, s.runtime)).1 in
      (
        e,
        h,
        t.0,
        t.1,
        update-IsUpdate entity_id e s.runtime
            (AllValues-lookup Rests entity_id s.entities {v = firmware e} rest h) done,
        refl,
      )

  IsRound-Rests :
      (entity_id : String) (s t : Fleet o.World)
      → AllValues Rests s.entities
      → IsRound entity_id s t
      → AllValues Rests t.entities
  IsRound-Rests entity_id s t rest (e, h, f, u, updated, after) =
      subst (λ x. AllValues Rests x.entities) (sym after)
        (AllValues-insert Rests entity_id (firmware f) s.entities updated.0 rest)

  check_each-AreRounds :
      (ids : List String) (s : Fleet o.World)
      → AllValues Rests s.entities
      → (check_each o latest_firmware version_dot ids s).0 ≡ ok tt
      → AreRounds ids s (check_each o latest_firmware version_dot ids s).1
  unfolding check_each check_one
  check_each-AreRounds [] s rest done = refl
  check_each-AreRounds (entity_id ∷ ids) s rest done =
      round-of (check_one o latest_firmware version_dot entity_id s) refl (check_each-AreRounds ids)
    where
      round-of :
          (x : Result (Unit {0}) × Fleet o.World)
          → check_one o latest_firmware version_dot entity_id s ≡ x
          → ((u : Fleet o.World)
              → AllValues Rests u.entities
              → (check_each o latest_firmware version_dot ids u).0 ≡ ok tt
              → AreRounds ids u (check_each o latest_firmware version_dot ids u).1)
          → AreRounds
              (entity_id ∷ ids)
              s
              (check_each o latest_firmware version_dot (entity_id ∷ ids) s).1
      round-of (ok u, t) h others =
          let same =
            >>=-ok (check_one o latest_firmware version_dot entity_id)
              (λ _. check_each o latest_firmware version_dot ids) s u t h in
          let one =
            subst (λ x. IsRound entity_id s x.1) h
              (check_found-IsRound entity_id (lookup entity_id s.entities) s refl rest
                (ap (λ x. x.0) h)) in
          (
            t,
            one,
            subst (λ x. AreRounds ids t x.1) (sym same)
                (others t (IsRound-Rests entity_id s t rest one) (ap (λ x. x.0) (sym same) ∙ done)),
          )
      round-of (raised e, t) h others =
          let same =
            >>=-raised (check_one o latest_firmware version_dot entity_id)
              (λ _. check_each o latest_firmware version_dot ids) s e t h in
          let never = ap (λ x. x.0) (sym same) ∙ done in cc

  pub handle-AreRounds :
      (ids : List String) (s : Fleet o.World)
      → AllValues Rests s.entities
      → (handle o latest_firmware version_dot ids s).0 ≡ ok tt
      → AreRounds ids s (handle o latest_firmware version_dot ids s).1
  unfolding handle check_loaded
  handle-AreRounds [] s rest done = refl
  handle-AreRounds (entity_id ∷ ids) s rest done = loaded-of s.loaded done
    where
      loaded-of :
          (loaded : Bool)
          → (check_loaded o latest_firmware version_dot (entity_id ∷ ids) loaded s).0 ≡ ok tt
          → AreRounds
              (entity_id ∷ ids)
              s
              (check_loaded o latest_firmware version_dot (entity_id ∷ ids) loaded s).1
      loaded-of true returned = check_each-AreRounds (entity_id ∷ ids) s rest returned
      loaded-of false returned = cc
