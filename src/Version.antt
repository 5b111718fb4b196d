-- ===== src/Version.antt =====
-- custom_components/danalock_ble/update.py: `_version_tuple`, `version_is_newer` and
-- `_versions_equal`. A version is walked by code points; `int()` is Python's, on ASCII text.
pub mod Order
use Prim.Native.Char.{code}
use Prim.Native.String.{String}
use danalock_ble_ha_integrat.Prelude.{
  ℕ, suc, ◌+◌, ◌-◌, ◌*◌, Bool, true, false, Option, none, some, List, [], ◌∷◌, ltb, leb, eqb, ◌&&◌,
  ◌||◌, if◌then◌else◌,
}
use danalock_ble_ha_integrat.Prelude.Int.{ℤ, pos, negsuc, pos_part, neg_part}
use mathlib.Core.List.{reverse}

abbrev pub codes : String → List ℕ
codes String.[] = []
codes (String.◌∷◌ c s) = code c ∷ codes s

prepend_to_first : ℕ → List (List ℕ) → List (List ℕ)
prepend_to_first c [] = (c ∷ []) ∷ []
prepend_to_first c (part ∷ parts) = (c ∷ part) ∷ parts

-- `version.split(".")`
unfoldable pub split_dots : List ℕ → List (List ℕ)
unfolding prepend_to_first
split_dots [] = [] ∷ []
split_dots (c ∷ cs) =
    let rest = split_dots cs in if eqb c b'.' then [] ∷ rest else prepend_to_first c rest

-- The ASCII characters that `int()` strips.
is_space : ℕ → Bool
is_space c = eqb c 32 || (leb 9 c && leb c 13) || (leb 28 c && leb c 31)

strip_left : List ℕ → List ℕ
unfolding is_space
strip_left [] = []
strip_left (c ∷ cs) = let rest = strip_left cs in if is_space c then rest else c ∷ cs

strip : List ℕ → List ℕ
unfolding strip_left
strip s = reverse (strip_left (reverse (strip_left s)))

is_digit : ℕ → Bool
is_digit c = leb b'0' c && leb c b'9'

-- Digits, where one underscore may stand between two digits; the flag says that a digit came last.
unfoldable pub parse_digits : List ℕ → ℕ → Bool → Option ℕ
unfolding is_digit
parse_digits [] acc true = some acc
parse_digits [] acc false = none
parse_digits (c ∷ cs) acc after_digit =
    let digit = parse_digits cs (acc * 10 + (c - b'0')) true in
    let underscore = parse_digits cs acc false in
    if is_digit c then digit else if eqb c b'_' && after_digit then underscore else none

negated : Option ℕ → Option ℤ
negated none = none
negated (some n) = some (if eqb n 0 then pos 0 else negsuc (n - 1))

positive : Option ℕ → Option ℤ
positive none = none
positive (some n) = some (pos n)

signed : List ℕ → Option ℤ
unfolding negated positive parse_digits
signed [] = none
signed (c ∷ cs) =
    if eqb c b'-'
    then negated (parse_digits cs 0 false)
    else if eqb c b'+'
    then positive (parse_digits cs 0 false)
    else positive (parse_digits (c ∷ cs) 0 false)

-- `int(part)`; `none` is its ValueError.
unfoldable pub parse_int : List ℕ → Option ℤ
unfolding signed strip
parse_int s = signed (strip s)

abbrev pub Triple : Type 0
Triple = ℤ × ℤ × ℤ

three_ints : Option ℤ → Option ℤ → Option ℤ → Option Triple
three_ints (some major) (some minor) (some revision) = some (major, minor, revision)
three_ints _ _ _ = none

three_parts : List (List ℕ) → Option Triple
unfolding three_ints
three_parts (a ∷ b ∷ c ∷ []) = three_ints (parse_int a) (parse_int b) (parse_int c)
three_parts _ = none

-- `_version_tuple`
unfoldable pub version_tuple : String → Option Triple
unfolding three_parts split_dots parse_int
version_tuple version = three_parts (split_dots (codes version))

abbrev pub lt_int : ℤ → ℤ → Bool
lt_int a b = ltb (pos_part a + neg_part b) (pos_part b + neg_part a)

abbrev pub eq_int : ℤ → ℤ → Bool
eq_int a b = eqb (pos_part a + neg_part b) (pos_part b + neg_part a)

-- `a < b` on tuples: the first components that differ decide.
abbrev pub lt_triple : Triple → Triple → Bool
lt_triple (a, b, c) (x, y, z) =
    lt_int a x || (eq_int a x && (lt_int b y || (eq_int b y && lt_int c z)))

abbrev pub eq_triple : Triple → Triple → Bool
eq_triple (a, b, c) (x, y, z) = eq_int a x && (eq_int b y && eq_int c z)

newer : Option Triple → Option Triple → Bool
newer (some latest) (some installed) = lt_triple installed latest
newer _ _ = false

-- `version_is_newer`
unfoldable pub version_is_newer : String → String → Bool
unfolding newer
version_is_newer latest_version installed_version =
    newer (version_tuple latest_version) (version_tuple installed_version)

equal : Option Triple → Option Triple → Bool
equal (some a) (some b) = eq_triple a b
equal _ _ = false

-- `_versions_equal`
unfoldable pub versions_equal : Option String → Option String → Bool
unfolding equal
versions_equal (some a) (some b) = equal (version_tuple a) (version_tuple b)
versions_equal _ _ = false
