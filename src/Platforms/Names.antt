-- ===== src/Platforms/Names.antt =====
-- Which entity a unique id or an entity id names.
use Prim.Native.Char.{Char, code}
use Prim.Native.String.{char_at}
use text.Mathlib.TextLemmas.{
  nil-append, cons-append, append_cancel_left, head-eq_of_cons-eq, tail-eq_of_cons-eq,
}
use danalock_ble_ha_integrat.Prelude.{
  String, ◌<>◌, false, Option, none, some, ◌==◌, ◌≡◌, ◌≢◌, ◌↔◌, refl, arith, ap, sym, ◌∙◌, contains,
  string_eq, nat_eq, if◌then◌else◌,
}
use danalock_ble_ha_integrat.Const.{domain}
use danalock_ble_ha_integrat.Version.{codes}
use danalock_ble_ha_integrat.Platforms.{
  Platform, binary_sensor, button, lock, select, sensor, update, NewEntity, domain_of, unique_id,
  entity_id,
}

-- The character stands nowhere in the text.
abbrev pub IsFree : Char → String → Type 0
IsFree c s = contains (codes s) (code c) ≡ false

free_head : (c d : Char) (s : String) → IsFree c (String.◌∷◌ d s) → c ≢ d
free_head c d s free = λ same. ground (arith, free, ap code same)

IsFree-tail : (c d : Char) (s : String) → IsFree c (String.◌∷◌ d s) → IsFree c s
IsFree-tail c d s free = ground (arith, free)

-- A text is determined up to the first separator and behind it.
split_first :
    (c : Char) (s t : String) (u v : String)
    → IsFree c s
    → IsFree c t
    → s <> String.◌∷◌ c u ≡ t <> String.◌∷◌ c v
    → (s ≡ t) × (u ≡ v)
split_first c String.[] String.[] u v left right h =
    (refl, tail-eq_of_cons-eq (sym (nil-append _) ∙ h ∙ nil-append _))
split_first c String.[] (String.◌∷◌ d t) u v left right h =
    absurd (free_head c d t right (head-eq_of_cons-eq (sym (nil-append _) ∙ h ∙ cons-append d t _)))
split_first c (String.◌∷◌ d s) String.[] u v left right h =
    absurd
      (free_head c d s left (sym (head-eq_of_cons-eq (sym (cons-append d s _) ∙ h ∙ nil-append _))))
split_first c (String.◌∷◌ d s) (String.◌∷◌ e t) u v left right h =
    let both = sym (cons-append d s _) ∙ h ∙ cons-append e t _ in
    let (same, rest) =
      split_first c s t u v (IsFree-tail c d s left) (IsFree-tail c e t right)
        (tail-eq_of_cons-eq both) in
    (ap (λ x. String.◌∷◌ x s) (head-eq_of_cons-eq both) ∙ ap (λ x. String.◌∷◌ e x) same, rest)

abbrev underscore : Char
underscore = char_at "_" 0

abbrev dot : Char
dot = char_at "." 0

underscore-append : (s : String) → String.◌∷◌ underscore s ≡ "_" <> s
underscore-append s =
    sym (cons-append underscore "" s ∙ ap (λ t. String.◌∷◌ underscore t) (nil-append s))

dot-append : (s : String) → String.◌∷◌ dot s ≡ "." <> s
dot-append s = sym (cons-append dot "" s ∙ ap (λ t. String.◌∷◌ dot t) (nil-append s))

-- Hexadecimal texts are of this kind.
abbrev pub IsPlain : String → Type 0
IsPlain serial = contains (codes serial) b'_' ≡ false

unique_id-injective :
    (d e : NewEntity)
    → IsPlain d.serial
    → IsPlain e.serial
    → unique_id d ≡ unique_id e
    → (d.serial ≡ e.serial) × (d.suffix ≡ e.suffix)
unfolding unique_id
unique_id-injective d e left right h =
    split_first underscore d.serial e.serial d.suffix e.suffix left right (
      ap (λ s. d.serial <> s) (underscore-append d.suffix)
      ∙ h
      ∙ ap (λ s. e.serial <> s) (sym (underscore-append e.suffix)))

platform_of : String → Option Platform
platform_of s =
    if s == "binary_sensor"
    then some binary_sensor
    else if s == "button"
    then some button
    else if s == "lock"
    then some lock
    else if s == "select"
    then some select
    else if s == "sensor"
    then some sensor
    else if s == "update"
    then some update
    else none

platform_of-domain_of : (p : Platform) → platform_of (domain_of p) ≡ some p
unfolding platform_of string_eq
platform_of-domain_of binary_sensor = refl
platform_of-domain_of button = refl
platform_of-domain_of lock = refl
platform_of-domain_of select = refl
platform_of-domain_of sensor = refl
platform_of-domain_of update = refl

domain_of-injective : (p q : Platform) → domain_of p ≡ domain_of q → p ≡ q
domain_of-injective p q h =
    let both = (sym (platform_of-domain_of p) ∙ ap platform_of h ∙ platform_of-domain_of q) in cc

domain_of-IsFree : (p : Platform) → IsFree dot (domain_of p)
unfolding nat_eq
domain_of-IsFree binary_sensor = refl
domain_of-IsFree button = refl
domain_of-IsFree lock = refl
domain_of-IsFree select = refl
domain_of-IsFree sensor = refl
domain_of-IsFree update = refl

-- Serials without an underscore, as hexadecimal ones are, keep the names of entities apart: the unique
-- ids of two entities are the same exactly if serial and suffix are, and their entity ids exactly if the
-- platform is the same, too.
pub entity_id-injective :
    (p q : Platform) (d e : NewEntity)
    → IsPlain d.serial
    → IsPlain e.serial
    → ((unique_id d ≡ unique_id e) ↔ ((d.serial ≡ e.serial) × (d.suffix ≡ e.suffix)))
      × ((entity_id p d ≡ entity_id q e)
          ↔ ((p ≡ q) × (d.serial ≡ e.serial) × (d.suffix ≡ e.suffix)))
unfolding entity_id unique_id
entity_id-injective p q d e left right =
    let object = λ (x : NewEntity). domain <> "_" <> x.serial <> "_" <> x.suffix in
    (
      (unique_id-injective d e left right, λ (serials, suffixes). cc),
      (
        λ h.
            let (domains, objects) =
              split_first dot (domain_of p) (domain_of q) (object d) (object e) (domain_of-IsFree p)
                (domain_of-IsFree q)
                (ap (λ s. domain_of p <> s) (dot-append (object d))
                  ∙ h
                  ∙ ap (λ s. domain_of q <> s) (sym (dot-append (object e)))) in
            let same = append_cancel_left domain _ _ objects in
            let (serials, suffixes) =
              unique_id-injective d e left right (append_cancel_left "_" _ _ same) in
            (domain_of-injective p q domains, serials, suffixes),
        λ (platforms, serials, suffixes). cc,
      ),
    )
