-- ===== src/ConfigFlow/Identity.antt =====
-- Which typed usernames are one account: blanks around a username and the case of its letters do not
-- matter.
use Prim.Native.Char.{Char}
use Prim.Native.String.{String}
use danalock_ble_ha_integrat.Prelude.{
  Bool, true, false, ◌≡◌, refl, ap, sym, subst, ◌∙◌, inl, inr, Bool-cases,
}
use danalock_ble_ha_integrat.ConfigFlow.Username.{
  is_blank, strip_left, or_empty, strip_right, strip, lower_char, lower, normalized_username,
}
use danalock_ble_ha_integrat.ConfigFlow.Letters.{is_blank-lower_char, lower-lower}

strip_left-lower : (s : String) → strip_left (lower s) ≡ lower (strip_left s)
unfolding lower strip_left
strip_left-lower String.[] = refl
strip_left-lower (String.◌∷◌ c s) = elim (Bool-cases (is_blank c)) [
  | inl blank ↦ rw (is_blank-lower_char c, blank) (strip_left-lower s)
  | inr solid ↦ rw (is_blank-lower_char c, solid) refl
]

or_empty-lower :
    (b : Bool) (c : Char) (s : String)
    → or_empty b (lower_char c) (lower s) ≡ lower (or_empty b c s)
unfolding or_empty lower
or_empty-lower true c String.[] = refl
or_empty-lower true c (String.◌∷◌ d s) = refl
or_empty-lower false c String.[] = refl
or_empty-lower false c (String.◌∷◌ d s) = refl

strip_right-lower : (s : String) → strip_right (lower s) ≡ lower (strip_right s)
unfolding strip_right lower
strip_right-lower String.[] = refl
strip_right-lower (String.◌∷◌ c s) =
    ap (λ b. or_empty b (lower_char c) (strip_right (lower s))) (is_blank-lower_char c)
    ∙ ap (or_empty (is_blank c) (lower_char c)) (strip_right-lower s)
    ∙ or_empty-lower (is_blank c) c (strip_right s)

strip-lower : (s : String) → strip (lower s) ≡ lower (strip s)
unfolding strip
strip-lower s = ap strip_right (strip_left-lower s) ∙ strip_right-lower (strip_left s)

or_empty-keeps :
    (c : Char) (s : String) → is_blank c ≡ false → or_empty (is_blank c) c s ≡ String.◌∷◌ c s
unfolding or_empty
or_empty-keeps c String.[] h = rw h refl
or_empty-keeps c (String.◌∷◌ d s) h = rw h refl

strip_left-solid :
    (c : Char) (s : String) → is_blank c ≡ false → strip_left (String.◌∷◌ c s) ≡ String.◌∷◌ c s
unfolding strip_left
strip_left-solid c s solid = rw solid refl

strip_right-solid :
    (c : Char) (s : String)
    → is_blank c ≡ false
    → strip_right (String.◌∷◌ c s) ≡ String.◌∷◌ c (strip_right s)
unfolding strip_right
strip_right-solid c s solid = or_empty-keeps c (strip_right s) solid

strip_left-stripped :
    (s : String) → strip_left (strip_right (strip_left s)) ≡ strip_right (strip_left s)
unfolding strip_left strip_right
strip_left-stripped String.[] = refl
strip_left-stripped (String.◌∷◌ c s) = elim (Bool-cases (is_blank c)) [
  | inl blank ↦ rw blank (strip_left-stripped s)
  | inr solid ↦
      subst (λ t. strip_left (strip_right t) ≡ strip_right t) (sym (strip_left-solid c s solid))
        (subst (λ t. strip_left t ≡ t) (sym (strip_right-solid c s solid))
          (strip_left-solid c (strip_right s) solid))
]

strip_right-or_empty :
    (b : Bool) (c : Char) (s : String)
    → is_blank c ≡ b
    → strip_right s ≡ s
    → strip_right (or_empty b c s) ≡ or_empty b c s
unfolding strip_right or_empty
strip_right-or_empty true c String.[] blank h = refl
strip_right-or_empty true c (String.◌∷◌ d s) blank h =
    ap (or_empty (is_blank c) c) h ∙ ap (λ b. or_empty b c (String.◌∷◌ d s)) blank
strip_right-or_empty false c String.[] solid h = strip_right-solid c String.[] solid
strip_right-or_empty false c (String.◌∷◌ d s) solid h =
    strip_right-solid c (String.◌∷◌ d s) solid ∙ ap (String.◌∷◌ c) h

strip_right-strip_right : (s : String) → strip_right (strip_right s) ≡ strip_right s
unfolding strip_right
strip_right-strip_right String.[] = refl
strip_right-strip_right (String.◌∷◌ c s) =
    strip_right-or_empty (is_blank c) c (strip_right s) refl (strip_right-strip_right s)

strip-strip : (s : String) → strip (strip s) ≡ strip s
unfolding strip
strip-strip s = ap strip_right (strip_left-stripped s) ∙ strip_right-strip_right (strip_left s)

-- A username with blanks around it, or with its letters in lower case, has the same normalized form,
-- and the normalized form is its own.
pub normalized_username-same :
    (username : String)
    → (normalized_username (strip username) ≡ normalized_username username)
      × (normalized_username (lower username) ≡ normalized_username username)
      × (normalized_username (normalized_username username) ≡ normalized_username username)
unfolding normalized_username
normalized_username-same username =
    let cased = ap lower (strip-lower username) ∙ lower-lower (strip username) in
    (
      ap lower (strip-strip username),
      cased,
      ap lower (strip-lower (strip username))
          ∙ lower-lower (strip (strip username))
          ∙ ap lower (strip-strip username),
    )
