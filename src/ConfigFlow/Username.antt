-- ===== src/ConfigFlow/Username.antt =====
-- custom_components/danalock_ble/config_flow.py: `normalized_username`, with Python's `strip` and
-- `lower` on ASCII text.
use Prim.Native.Char.{Char, code}
use Prim.Native.String.{String}
use danalock_ble_ha_integrat.Prelude.{Bool, true, leb, eqb, ◌||◌, ◌&&◌, if◌then◌else◌}

-- The ASCII characters that `strip` takes away.
unfoldable pub is_blank : Char → Bool
is_blank c =
    eqb (code c) 32 || (leb 9 (code c) && leb (code c) 13) || (leb 28 (code c) && leb (code c) 31)

unfoldable pub strip_left : String → String
unfolding is_blank
strip_left String.[] = String.[]
strip_left (String.◌∷◌ c s) = let rest = strip_left s in if is_blank c then rest else String.◌∷◌ c s

unfoldable pub or_empty : Bool → Char → String → String
or_empty true c String.[] = String.[]
or_empty blank c rest = String.◌∷◌ c rest

unfoldable pub strip_right : String → String
unfolding or_empty is_blank
strip_right String.[] = String.[]
strip_right (String.◌∷◌ c s) = or_empty (is_blank c) c (strip_right s)

-- `str.strip()`
unfoldable pub strip : String → String
unfolding strip_left strip_right
strip s = strip_right (strip_left s)

-- The letter of the second text that stands where the character stands in the first, or the character.
unfoldable pub translate : String → String → Char → Char
translate (String.◌∷◌ u us) (String.◌∷◌ v vs) c =
    let later = translate us vs c in if eqb (code c) (code u) then v else later
translate _ _ c = c

unfoldable pub lower_char : Char → Char
unfolding translate
lower_char c = translate "ABCDEFGHIJKLMNOPQRSTUVWXYZ" "abcdefghijklmnopqrstuvwxyz" c

-- `str.lower()`
unfoldable pub lower : String → String
unfolding lower_char
lower String.[] = String.[]
lower (String.◌∷◌ c s) = String.◌∷◌ (lower_char c) (lower s)

-- `normalized_username`
unfoldable pub normalized_username : String → String
normalized_username username = lower (strip username)
