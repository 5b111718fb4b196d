-- ===== src/Broadcast/Dispatch.antt =====
-- Which device an advertisement reaches.
use danalock_ble_ha_integrat.Prelude.{
  ℕ, String, Bool, some, [], ◌∷◌, ◌++◌, true, ◌≡◌, refl, ◌≢◌, ◌⊎◌, inl, inr, arith, string_eq,
  nat_eq, Option-cases,
}
use danalock_ble_ha_integrat.Prelude.Dict.{
  Dict, lookup, insert, lookup-insert_self, lookup-insert_ne,
}
use danalock_ble_ha_integrat.Pydanalock.{Bytes, DeviceKey, BroadcastReport, ServiceInfo}
use danalock_ble_ha_integrat.Const.{manufacturer_id}
use danalock_ble_ha_integrat.Broadcast.{
  Device, Monitor, Parser, accept, accept_device, try_keys, handle_advertisement,
}

-- The entry is one of the dict's.
abbrev pub Holds : Dict String DeviceKey → String → DeviceKey → Type 0
Holds [] serial key = ⊥
Holds ((j, k) ∷ ks) serial key = ((serial ≡ j) × (key ≡ k)) ⊎ Holds ks serial key

module _ (parse_broadcast : Parser) where
  -- No entry decodes the payload to its own serial.
  abbrev pub Foreign : Bytes → Dict String DeviceKey → Type 0
  Foreign payload [] = Unit
  Foreign payload ((serial, key) ∷ ks) =
      ((report : BroadcastReport)
        → parse_broadcast payload key.broadcast_key ≡ some report
        → report.serial ≢ serial)
      × Foreign payload ks

  try_keys-Foreign :
      (payload : Bytes) (info : ServiceInfo) (now : ℕ) (ks rest : Dict String DeviceKey)
      (m : Monitor)
      → Foreign payload ks
      → (failed : Bool) × (try_keys parse_broadcast payload info now (ks ++ rest) m
          ≡ try_keys parse_broadcast payload info now rest
              (record m { logged_decode_failure = failed }))
  unfolding try_keys
  try_keys-Foreign payload info now [] rest m h = (m.logged_decode_failure, refl)
  try_keys-Foreign payload info now ((serial, key) ∷ ks) rest m h =
      elim (Option-cases (parse_broadcast payload key.broadcast_key)) [
        | inl e ↦
            let ih =
              try_keys-Foreign payload info now ks rest (record m { logged_decode_failure = true })
                h.1 in
            (ih.0, rw (e, try_keys) ih.1)
        | inr (report, e) ↦ elim (string_eq.dec report.serial serial) [
          | yes same ↦ absurd (h.0 report e same)
          | no differ ↦
              let ih = try_keys-Foreign payload info now ks rest m h.1 in
              (ih.0, ground (arith, ih.1, e))
        ]
      ]

  -- What a handled advertisement did: nothing to the devices, or one accept, on the device whose
  -- own key decodes the payload to its own serial.
  abbrev pub Delivered :
      Bytes → ServiceInfo → ℕ → Dict String DeviceKey → Monitor → Dict String Device → Type 0
  Delivered payload info now ks m devices =
      (devices ≡ m.devices)
      ⊎ ((key : DeviceKey) × (report : BroadcastReport) × (d : Device) × Holds ks report.serial key
          × (parse_broadcast payload key.broadcast_key ≡ some report)
          × (lookup report.serial m.devices ≡ some d)
          × (devices
              ≡ insert report.serial (accept_device m.started_at now report info d) m.devices))

  Delivered-cons :
      (payload : Bytes) (info : ServiceInfo) (now : ℕ) (serial : String) (key : DeviceKey)
      (ks : Dict String DeviceKey) (m : Monitor) (devices : Dict String Device)
      → Delivered payload info now ks m devices
      → Delivered payload info now ((serial, key) ∷ ks) m devices
  Delivered-cons payload info now serial key ks m devices (inl same) = inl same
  Delivered-cons payload info now serial key ks m devices (inr (k, r, d, held, e, found, done)) =
      inr (k, r, d, inr held, e, found, done)

  try_keys-Delivered :
      (payload : Bytes) (info : ServiceInfo) (now : ℕ) (ks : Dict String DeviceKey) (m m' : Monitor)
      → try_keys parse_broadcast payload info now ks m ≡ some m'
      → Delivered payload info now ks m m'.devices × (m'.started_at ≡ m.started_at)
  unfolding try_keys accept
  try_keys-Delivered payload info now [] m m' h = (inl (ground arith), ground arith)
  try_keys-Delivered payload info now ((serial, key) ∷ ks) m m' h =
      elim (Option-cases (parse_broadcast payload key.broadcast_key)) [
        | inl e ↦
            let ih =
              try_keys-Delivered payload info now ks (record m { logged_decode_failure = true }) m'
                (rw (e, try_keys) at h) in
            (Delivered-cons payload info now serial key ks m m'.devices ih.0, ih.1)
        | inr (report, e) ↦ elim (string_eq.dec report.serial serial) [
          | yes same ↦ elim (Option-cases (lookup serial m.devices)) [
            | inl missing ↦ absurd (ground arith)
            | inr (d, found) ↦ (
              inr (key, report, d, inl (same, refl), e, rw same found, rw same (ground arith)),
              ground arith,
            )
          ]
          | no differ ↦
              let ih = try_keys-Delivered payload info now ks m m' (ground arith) in
              (Delivered-cons payload info now serial key ks m m'.devices ih.0, ih.1)
        ]
      ]

pub handle_advertisement-devices :
    (parse_broadcast : Parser) (ks : Dict String DeviceKey) (info : ServiceInfo) (now : ℕ)
    (m m' : Monitor)
    → handle_advertisement parse_broadcast ks info now m ≡ some m'
    → ((m'.devices ≡ m.devices)
        ⊎ ((report : BroadcastReport) × (d : Device) × (lookup report.serial m.devices ≡ some d)
            × (m'.devices
                ≡ insert report.serial (accept_device m.started_at now report info d) m.devices)))
      × (m'.started_at ≡ m.started_at)
unfolding handle_advertisement
handle_advertisement-devices parse_broadcast ks info now m m' h =
    elim (Option-cases (lookup manufacturer_id info.manufacturer_data)) [
      | inl e ↦ (inl (ground arith), ground arith)
      | inr (payload, e) ↦
          let t = try_keys-Delivered parse_broadcast payload info now ks m m' (ground arith) in
          (
            elim t.0 [
              | inl same ↦ inl same
              | inr (key, report, d, held, parsed, found, done) ↦ inr (report, d, found, done)
            ],
            t.1,
          )
    ]

-- A handled advertisement changes no device, or exactly one: a device of the payload's serial,
-- whose own broadcast key decodes the payload, and which accepts the report. Every other device is
-- as before.
pub handle_advertisement-Delivered :
    (parse_broadcast : Parser) (ks : Dict String DeviceKey) (info : ServiceInfo) (now : ℕ)
    (m m' : Monitor)
    → handle_advertisement parse_broadcast ks info now m ≡ some m'
    → (m'.devices ≡ m.devices)
      ⊎ ((payload : Bytes) × (key : DeviceKey) × (report : BroadcastReport) × (d : Device) × (lookup
              manufacturer_id info.manufacturer_data
            ≡ some payload)
          × Holds ks report.serial key
          × (parse_broadcast payload key.broadcast_key ≡ some report)
          × (lookup report.serial m.devices ≡ some d)
          × (lookup report.serial m'.devices ≡ some (accept_device m.started_at now report info d))
          × ((j : String) → j ≢ report.serial → lookup j m'.devices ≡ lookup j m.devices))
unfolding handle_advertisement
handle_advertisement-Delivered parse_broadcast ks info now m m' h =
    elim (Option-cases (lookup manufacturer_id info.manufacturer_data)) [
      | inl e ↦ inl (ground arith)
      | inr (payload, e) ↦
          elim (try_keys-Delivered parse_broadcast payload info now ks m m' (ground arith)).0 [
            | inl same ↦ inl same
            | inr (key, report, d, held, parsed, found, done) ↦ inr (
              payload,
              key,
              report,
              d,
              e,
              held,
              parsed,
              found,
              rw done (lookup-insert_self report.serial _ m.devices),
              λ j ne. rw done (lookup-insert_ne j report.serial _ m.devices ne),
            )
          ]
    ]

-- The first entry that decodes the payload to its own serial gets the report, whatever the entries
-- before it make of the payload and whatever comes behind it.
pub handle_advertisement_first :
    (parse_broadcast : Parser) (before later : Dict String DeviceKey) (key : DeviceKey)
    (report : BroadcastReport) (payload : Bytes) (info : ServiceInfo) (now : ℕ) (m : Monitor)
    (d : Device)
    → lookup manufacturer_id info.manufacturer_data ≡ some payload
    → Foreign parse_broadcast payload before
    → parse_broadcast payload key.broadcast_key ≡ some report
    → lookup report.serial m.devices ≡ some d
    → (failed : Bool) × (handle_advertisement parse_broadcast
          (before ++ (report.serial, key) ∷ later)
          info
          now
          m
        ≡ some (record m {
          devices = insert report.serial (accept_device m.started_at now report info d) m.devices;
          logged_decode_failure = failed;
        }))
unfolding handle_advertisement try_keys accept
handle_advertisement_first parse_broadcast before later key report payload info now m d e foreign
      parsed found =
    let skip =
      try_keys-Foreign parse_broadcast payload info now before ((report.serial, key) ∷ later) m
        foreign in
    (skip.0, ground (arith, skip.1, e, parsed, found))
