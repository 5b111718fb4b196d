-- ===== src/Platforms/Once.antt =====
-- Every device gets each of its entities once.
use native.Mathlib.Nat.{suc-mul, mul-add}
use danalock_ble_ha_integrat.Prelude.{
  ℕ, suc, ◌+◌, ◌*◌, String, Bool, true, some, List, [], ◌∷◌, ◌++◌, ◌==◌, ◌&&◌, ◌≡◌, refl, arith, ap,
  ◌∙◌, contains, Bool-cases, inl, inr, string_eq, if◌then◌else◌,
}
use danalock_ble_ha_integrat.Prelude.Dict.{keys}
use danalock_ble_ha_integrat.Outside.{Runtime}
use danalock_ble_ha_integrat.Platforms.{
  Platform, binary_sensor, button, lock, select, sensor, update, NewEntity, suffixes, of_device,
  of_devices, all_in, guarded, binary_sensors, buttons, locks, selects, sensors, updates, entities,
  setup_platform, no_control,
}

-- How often the text is in the list.
abbrev pub count : String → List String → ℕ
count x [] = 0
count x (y ∷ ys) = let rest = count x ys in if x == y then suc rest else rest

-- How many of the entities have the unique id of this device and suffix.
abbrev pub count_id : String → String → List NewEntity → ℕ
count_id serial suffix [] = 0
count_id serial suffix (e ∷ es) =
    let rest = count_id serial suffix es in
    if serial == e.serial && suffix == e.suffix then suc rest else rest

module _ (serial suffix : String) where
  count_id-append :
      (xs ys : List NewEntity)
      → count_id serial suffix (xs ++ ys) ≡ count_id serial suffix xs + count_id serial suffix ys
  count_id-append [] ys = omega arith
  count_id-append (x ∷ xs) ys = ground (arith, count_id-append xs ys)

  count_id-of_device :
      (j : String) (c : Bool) (names : List String)
      → count_id serial suffix (of_device j c names)
        ≡ (if serial == j then count suffix names else 0)
  unfolding of_device
  count_id-of_device j c [] = ground arith
  count_id-of_device j c (name ∷ names) = ground (arith, count_id-of_device j c names)

  count_id-of_devices :
      (control : String → Bool) (names serials : List String)
      → count_id serial suffix (of_devices control names serials)
        ≡ count serial serials * count suffix names
  unfolding of_devices
  count_id-of_devices control names [] = omega arith
  count_id-of_devices control names (j ∷ js) =
      count_id-append (of_device j (control j) names) (of_devices control names js)
      ∙ added-up (of_device j (control j) names) (count_id-of_device j (control j) names)
          (count_id-of_devices control names js)
    where
      added-up :
          (es : List NewEntity)
          → count_id serial suffix es ≡ (if serial == j then count suffix names else 0)
          → count_id serial suffix (of_devices control names js)
            ≡ count serial js * count suffix names
          → count_id serial suffix es + count_id serial suffix (of_devices control names js)
            ≡ count serial (j ∷ js) * count suffix names
      added-up es one others = elim (Bool-cases (serial == j)) [
        | inl same ↦
            ground (arith, one, others, same, suc-mul (count serial js) (count suffix names))
        | inr differ ↦ ground (arith, one, others, differ)
      ]

  count-append : (xs ys : List String) → count suffix (xs ++ ys) ≡ count suffix xs + count suffix ys
  count-append [] ys = omega arith
  count-append (x ∷ xs) ys = ground (arith, count-append xs ys)

  -- Entities that are added suffix by suffix.
  count_id-parts :
      (control : String → Bool) (names others serials : List String) (es : List NewEntity)
      → count_id serial suffix es ≡ count serial serials * count suffix others
      → count_id serial suffix (of_devices control names serials ++ es)
        ≡ count serial serials * count suffix (names ++ others)
  count_id-parts control names others serials es h =
      count_id-append (of_devices control names serials) es
      ∙ rw
          (
            h,
            count_id-of_devices control names serials,
            count-append names others,
            mul-add (count serial serials) (count suffix names) (count suffix others),
          )
          refl

  guarded-count :
      (known serials : List String) (es : List NewEntity) (n : ℕ)
      → all_in known serials ≡ true
      → count_id serial suffix es ≡ n
      → (made : List NewEntity) × (guarded (all_in known serials) es ≡ some made)
        × (count_id serial suffix made ≡ n)
  unfolding guarded
  guarded-count known serials es n within counted = (es, rw within refl, counted)

all_in-of :
    (known serials : List String)
    → ((j : String) → contains serials j ≡ true → contains known j ≡ true)
    → all_in known serials ≡ true
unfolding all_in
all_in-of known [] h = refl
all_in-of known (j ∷ js) h =
    ground
      (arith, h j (ground arith), all_in-of known js (λ i within. h i (ground (arith, within))))

module _ {W : Type 0} where
  of_keys :
      (serial suffix : String) (control : String → Bool) (p : Platform) (s : Runtime W)
      → keys s.monitor.devices ≡ keys s.keys
      → count_id serial suffix (of_devices control (suffixes p) (keys s.monitor.devices))
        ≡ count serial (keys s.keys) * count suffix (suffixes p)
  of_keys serial suffix control p s states =
      count_id-of_devices serial suffix control (suffixes p) (keys s.monitor.devices)
      ∙ ap (λ ks. count serial ks * count suffix (suffixes p)) states

  -- If the monitor's devices and the controls are those of the keys, every platform of an entry with a
  -- monitor adds its entities without a KeyError, and of each serial and suffix as many as the number
  -- of times the serial is among the keys times that of the suffix among the platform's suffixes.
  pub setup_platform-count :
      (p : Platform) (serial suffix : String) (s : Runtime W)
      → keys s.monitor.devices ≡ keys s.keys
      → s.controls ≡ keys s.keys
      → (es : List NewEntity) × (setup_platform p true s ≡ some es)
        × (count_id serial suffix es ≡ count serial (keys s.keys) * count suffix (suffixes p))
  unfolding setup_platform entities binary_sensors buttons locks selects sensors updates
  setup_platform-count binary_sensor serial suffix s states controls =
      let ks = keys s.monitor.devices in
      let first = of_devices no_control ("lock_state" ∷ []) ks in
      let second =
        of_devices no_control ("jammed" ∷ "auto_calibrated" ∷ "point_calibrated" ∷ []) ks in
      let third = of_devices no_control ("twist_assist" ∷ []) ks in
      (
        first ++ (second ++ third),
        refl,
        count_id-parts serial suffix no_control ("lock_state" ∷ [])
              ("jammed" ∷ "auto_calibrated" ∷ "point_calibrated" ∷ "twist_assist" ∷ []) ks
              (second ++ third)
              (count_id-parts serial suffix no_control
                ("jammed" ∷ "auto_calibrated" ∷ "point_calibrated" ∷ []) ("twist_assist" ∷ []) ks
                third (count_id-of_devices serial suffix no_control ("twist_assist" ∷ []) ks))
            ∙ ap (λ js. count serial js * count suffix (suffixes binary_sensor)) states,
      )
  setup_platform-count button serial suffix s states controls =
      (_, refl, of_keys serial suffix (contains s.controls) button s states)
  setup_platform-count lock serial suffix s states controls =
      (_, refl, of_keys serial suffix (contains s.controls) lock s states)
  setup_platform-count select serial suffix s states controls =
      (_, refl, of_keys serial suffix (contains s.controls) select s states)
  setup_platform-count sensor serial suffix s states controls =
      guarded-count serial suffix (keys s.monitor.devices) (keys s.keys) _ _
        (all_in-of (keys s.monitor.devices) (keys s.keys)
          (λ j within. ap (λ ks. contains ks j) states ∙ within))
        (count_id-of_devices serial suffix no_control (suffixes sensor) (keys s.keys))
  setup_platform-count update serial suffix s states controls =
      guarded-count serial suffix s.controls (keys s.keys) _ _
        (all_in-of s.controls (keys s.keys)
          (λ j within. ap (λ ks. contains ks j) controls ∙ within))
        (count_id-of_devices serial suffix (contains s.controls) (suffixes update) (keys s.keys))
