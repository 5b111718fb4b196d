-- ===== src/Firmware/Probe.antt =====
-- What one firmware refresh changes, branch by branch.
use danalock_ble_ha_integrat.Prelude.{
  String, true, false, none, some, ◌≡◌, ◌≢◌, ◌⊎◌, inl, inr, arith, Option-cases, if◌then◌else◌,
}
use danalock_ble_ha_integrat.Prelude.Errors.{
  Exn, Result, Result-cases, ok, raised, is_cloud_failure, is_exception,
}
use danalock_ble_ha_integrat.Pydanalock.{Version, DeviceInformation}
use danalock_ble_ha_integrat.Version.{versions_equal}
use danalock_ble_ha_integrat.Outside.{Outside, External}
use danalock_ble_ha_integrat.Control.{device_information}
use danalock_ble_ha_integrat.Firmware.{
  CycleOutcome, LatestFirmware, Values, Entity, firmware_poll_interval, firmware_retry_interval,
  read_lock, refresh,
}

-- What the answer of the lock makes of the outcome, and of the values of before.
abbrev pub OfRead :
    (Version → String)
    → LatestFirmware
    → Result DeviceInformation
    → Result CycleOutcome
    → Values
    → Values
    → Type 0
OfRead version_dot latest answer r before after =
    ((info : DeviceInformation) × (answer ≡ ok info)
      × (r ≡ ok (record { next_delay = firmware_poll_interval; failed = false; error = none }))
      × (after.installed_version ≡ some (version_dot info.firmware_version))
      × (after.firmware_identifier ≡ some info.firmware_identifier)
      × (after.hardware_version ≡ some (version_dot info.hardware_version)))
    ⊎ ((e : Exn) × (answer ≡ raised e)
        × (r ≡ (
            if is_exception e
            then ok (record { next_delay = firmware_poll_interval; failed = true; error = some e })
            else raised e))
        × (after.installed_version ≡ before.installed_version)
        × (after.hardware_version ≡ before.hardware_version)
        × ((before.firmware_identifier ≢ none)
              × (after.firmware_identifier ≡ before.firmware_identifier)
            ⊎ (before.firmware_identifier ≡ none)
              × (after.firmware_identifier ≡ latest.firmware_identifier)))

module _ (o : Outside) (latest_firmware : String → External o.World LatestFirmware)
    (version_dot : Version → String) (s : Entity o.World) where
  -- If the cloud's latest version equals the installed one, the lock is not contacted: no call goes
  -- out behind the probe, the installed version and the hardware version stay, and the next cycle
  -- is due in 24 hours.
  pub refresh_equal :
      (latest : LatestFirmware)
      → (latest_firmware s.serial s.runtime.world).0 ≡ ok latest
      → versions_equal s.values.installed_version (some latest.version) ≡ true
      → let (r, t) = refresh o latest_firmware version_dot s in
        (r ≡ ok (record { next_delay = firmware_poll_interval; failed = false; error = none }))
        × (t.runtime ≡ record (s.runtime) { world = (latest_firmware s.serial s.runtime.world).1 })
        × (t.values.latest_version ≡ some latest.version)
        × (t.values.installed_version ≡ s.values.installed_version)
        × (t.values.hardware_version ≡ s.values.hardware_version)
  unfolding refresh
  refresh_equal latest probe same = (
    ground (arith, probe, same),
    ground (arith, probe, same),
    ground (arith, probe, same),
    ground (arith, probe, same),
    ground (arith, probe, same),
  )

  -- A probe that fails in the cloud or the network changes no value; the cycle has failed, and the
  -- next one is due in 15 minutes.
  pub refresh_unreachable :
      (e : Exn)
      → (latest_firmware s.serial s.runtime.world).0 ≡ raised e
      → is_cloud_failure e ≡ true
      → let (r, t) = refresh o latest_firmware version_dot s in
        (r ≡ ok (record { next_delay = firmware_retry_interval; failed = true; error = some e }))
        × (t.values ≡ s.values)
  unfolding refresh
  refresh_unreachable e probe cloud = (ground (arith, probe, cloud), ground (arith, probe, cloud))

  -- If the latest version differs, the lock is read, and every outcome has the latest version and its
  -- maturity stored. A read that succeeds stores the firmware version, the identifier and the
  -- hardware version that the lock says of itself. A read that raises leaves the installed version
  -- and the hardware version, and the identifier too unless there was none, when the cloud's takes its
  -- place; an `Exception` is reported with the 24 hours kept, and anything else leaves the refresh.
  pub refresh_differs :
      (latest : LatestFirmware)
      → (latest_firmware s.serial s.runtime.world).0 ≡ ok latest
      → versions_equal s.values.installed_version (some latest.version) ≡ false
      → let (r, t) = refresh o latest_firmware version_dot s in
        let answer =
          (device_information o s.serial
            (record (s.runtime) { world = (latest_firmware s.serial s.runtime.world).1 })).0 in
        (t.values.latest_version ≡ some latest.version)
        × (t.values.maturity ≡ latest.maturity)
        × OfRead version_dot latest answer r s.values t.values
  unfolding refresh read_lock
  refresh_differs latest probe differ =
      let answer =
        (device_information o s.serial
          (record (s.runtime) { world = (latest_firmware s.serial s.runtime.world).1 })).0 in
      elim (Result-cases answer) [
        | inl (info, h) ↦ (
          ground (arith, probe, differ, h),
          ground (arith, probe, differ, h),
          inl (
            info,
            h,
            ground (arith, probe, differ, h),
            ground (arith, probe, differ, h),
            ground (arith, probe, differ, h),
            ground (arith, probe, differ, h),
          ),
        )
        | inr (e, h) ↦ (
          ground (arith, probe, differ, h),
          ground (arith, probe, differ, h),
          inr (
            e,
            h,
            ground (arith, probe, differ, h),
            ground (arith, probe, differ, h),
            ground (arith, probe, differ, h),
            elim (Option-cases s.values.firmware_identifier) [
              | inl missing ↦ inr (missing, ground (arith, probe, differ, h, missing))
              | inr (own, known) ↦ inl (
                λ none_yet. ground (arith, known, none_yet),
                ground (arith, probe, differ, h, known),
              )
            ],
          ),
        )
      ]
