-- ===== src/Broadcast/Deliveries.antt =====
-- Which report an advertisement delivers, and to which device.
use danalock_ble_ha_integrat.Prelude.{
  ℕ, String, ◌==◌, true, Option, none, some, [], ◌∷◌, ◌≡◌, refl, arith, inl, inr, Bool-cases,
  string_eq, nat_eq, Option-cases, if◌then◌else◌,
}
use danalock_ble_ha_integrat.Prelude.Dict.{Dict, lookup, insert, lookup-insert}
use danalock_ble_ha_integrat.Pydanalock.{Bytes, DeviceKey, BroadcastReport, ServiceInfo}
use danalock_ble_ha_integrat.Const.{manufacturer_id}
use danalock_ble_ha_integrat.Broadcast.{
  Device, Monitor, Parser, accept, accept_device, try_keys, handle_advertisement,
}

module _ (parse_broadcast : Parser) where
  -- The report that the first key of its own serial decodes.
  unfoldable pub decoded : Bytes → Dict String DeviceKey → Option BroadcastReport
  decoded payload [] = none
  decoded payload ((serial, key) ∷ ks) =
      let later = decoded payload ks in
      elim (parse_broadcast payload key.broadcast_key) [
        | none ↦ later
        | some report ↦ if report.serial == serial then some report else later
      ]

  -- The report that an advertisement delivers.
  unfoldable pub delivered : Dict String DeviceKey → ServiceInfo → Option BroadcastReport
  unfolding decoded
  delivered ks info = elim (lookup manufacturer_id info.manufacturer_data) [
    | none ↦ none
    | some payload ↦ decoded payload ks
  ]

-- The device of a serial after the delivery.
abbrev pub after_delivery :
    String → Option ℕ → ℕ → ServiceInfo → Option BroadcastReport → Device → Device
after_delivery serial started now info none d = d
after_delivery serial started now info (some report) d =
    if report.serial == serial then accept_device started now report info d else d

-- The handler ended, or raised a KeyError, with this device of the serial.
abbrev pub HasDevice : String → Option ℕ → Device → Device → Option Monitor → Type 0
HasDevice serial started before d none = before ≡ d
HasDevice serial started before d (some m) =
    (lookup serial m.devices ≡ some d) × (m.started_at ≡ started)

missing_other :
    (j serial : String) (info : ServiceInfo) (now : ℕ) (report : BroadcastReport) (m : Monitor)
    (d : Device)
    → lookup j m.devices ≡ some d
    → report.serial ≡ serial
    → lookup serial m.devices ≡ none
    → d ≡ after_delivery j m.started_at now info (some report) d
missing_other j serial info now report m d found same missing = ground (arith, found, same, missing)

stored_one :
    (j serial : String) (info : ServiceInfo) (now : ℕ) (report : BroadcastReport) (m : Monitor)
    (d d' : Device)
    → lookup j m.devices ≡ some d
    → report.serial ≡ serial
    → lookup serial m.devices ≡ some d'
    → lookup j (insert serial (accept_device m.started_at now report info d') m.devices)
      ≡ some (after_delivery j m.started_at now info (some report) d)
stored_one j serial info now report m d d' found same present = ground (
  arith,
  found,
  same,
  present,
  lookup-insert j serial (accept_device m.started_at now report info d') m.devices,
)

accept-HasDevice :
    (j serial : String) (report : BroadcastReport) (info : ServiceInfo) (now : ℕ) (m : Monitor)
    (d : Device)
    → lookup j m.devices ≡ some d
    → report.serial ≡ serial
    → HasDevice j m.started_at d
        (after_delivery j m.started_at now info (some report) d)
        (accept serial report info now m)
unfolding accept
accept-HasDevice j serial report info now m d found same = go (lookup serial m.devices) refl
  where
    go :
        (o : Option Device)
        → lookup serial m.devices ≡ o
        → HasDevice j m.started_at d
            (after_delivery j m.started_at now info (some report) d)
            (elim o [
              | none ↦ none
              | some e ↦ some (record m {
                devices = insert serial (accept_device m.started_at now report info e) m.devices;
              })
            ])
    go none missing = missing_other j serial info now report m d found same missing
    go (some e) present = (stored_one j serial info now report m d e found same present, refl)

module _ (parse_broadcast : Parser) (j : String) (d : Device) (info : ServiceInfo) (now : ℕ) where
  try_keys-HasDevice :
      (payload : Bytes) (ks : Dict String DeviceKey) (m : Monitor)
      → lookup j m.devices ≡ some d
      → HasDevice j m.started_at d
          (after_delivery j m.started_at now info (decoded parse_broadcast payload ks) d)
          (try_keys parse_broadcast payload info now ks m)
  unfolding try_keys decoded
  try_keys-HasDevice payload [] m found = (found, refl)
  try_keys-HasDevice payload ((serial, key) ∷ ks) m found =
      elim (Option-cases (parse_broadcast payload key.broadcast_key)) [
        | inl e ↦
            rw (try_keys, decoded, e)
              (try_keys-HasDevice payload ks (record m { logged_decode_failure = true }) found)
        | inr (report, e) ↦ elim (Bool-cases (report.serial == serial)) [
          | inl same ↦
              rw (try_keys, decoded, e, same)
                (accept-HasDevice j serial report info now m d found (ground (arith, same)))
          | inr differ ↦ rw (try_keys, decoded, e, differ) (try_keys-HasDevice payload ks m found)
        ]
      ]

-- A handled advertisement changes the one device that it delivers a report to.
pub hear-delivered :
    (parse_broadcast : Parser) (ks : Dict String DeviceKey) (j : String) (d : Device)
    (info : ServiceInfo) (now : ℕ) (m : Monitor)
    → lookup j m.devices ≡ some d
    → HasDevice j m.started_at d
        (after_delivery j m.started_at now info (delivered parse_broadcast ks info) d)
        (handle_advertisement parse_broadcast ks info now m)
unfolding handle_advertisement delivered
hear-delivered parse_broadcast ks j d info now m found =
    elim (Option-cases (lookup manufacturer_id info.manufacturer_data)) [
      | inl e ↦ rw (handle_advertisement, delivered, e) (found, refl)
      | inr (payload, e) ↦
          rw (handle_advertisement, delivered, e)
            (try_keys-HasDevice parse_broadcast j d info now payload ks m found)
    ]
