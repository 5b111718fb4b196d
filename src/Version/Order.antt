-- ===== src/Version/Order.antt =====
-- The comparison of versions is a strict order on the well-formed ones.
use Prim.Native.String.{String}
use danalock_ble_ha_integrat.Prelude.{
  ◌+◌, ◌<◌, Bool, true, false, Option, none, some, ◌≡◌, refl, ◌≢◌, ◌⊎◌, arith,
}
use danalock_ble_ha_integrat.Prelude.Int.{ℤ, pos_part, neg_part}
use danalock_ble_ha_integrat.Version.{
  Triple, lt_triple, eq_triple, version_tuple, newer, equal, version_is_newer, versions_equal,
}

abbrev LtInt : ℤ → ℤ → Type 0
LtInt a b = pos_part a + neg_part b < pos_part b + neg_part a

abbrev EqInt : ℤ → ℤ → Type 0
EqInt a b = pos_part a + neg_part b ≡ pos_part b + neg_part a

abbrev LtTriple : Triple → Triple → Type 0
LtTriple a b = LtInt a.0 b.0 ⊎ (EqInt a.0 b.0 × (LtInt a.1 b.1 ⊎ (EqInt a.1 b.1 × LtInt a.2 b.2)))

lt_triple→LtTriple : (a b : Triple) → lt_triple a b ≡ true → LtTriple a b
lt_triple→LtTriple a b h = ground arith

LtTriple→lt_triple : (a b : Triple) → LtTriple a b → lt_triple a b ≡ true
LtTriple→lt_triple a b h = ground arith

LtTriple-trans : (a b c : Triple) → LtTriple a b → LtTriple b c → LtTriple a c
LtTriple-trans a b c h k = omega arith

LtTriple-irrefl : (a : Triple) → ¬ LtTriple a a
LtTriple-irrefl a h = omega arith

newer_trans : (a b c : Option Triple) → newer a b ≡ true → newer b c ≡ true → newer a c ≡ true
unfolding newer
newer_trans (some a) (some b) (some c) h k =
    LtTriple→lt_triple c a
      (LtTriple-trans c b a (lt_triple→LtTriple c b k) (lt_triple→LtTriple b a h))
newer_trans (some a) (some b) none h k = cc
newer_trans (some a) none c h k = cc
newer_trans none b c h k = cc

-- An update over an update is an update: if a is newer than b and b newer than c, a is newer than c.
pub version_is_newer_trans :
    (a b c : String)
    → version_is_newer a b ≡ true
    → version_is_newer b c ≡ true
    → version_is_newer a c ≡ true
unfolding version_is_newer
version_is_newer_trans a b c h k =
    newer_trans (version_tuple a) (version_tuple b) (version_tuple c) h k

-- How two versions can stand to each other.
abbrev pub Compared : Bool → Bool → Bool → Type 0
Compared true false false = Unit
Compared false true false = Unit
Compared false false true = Unit
Compared _ _ _ = ⊥

triples-Compared : (a b : Triple) → Compared (lt_triple b a) (lt_triple a b) (eq_triple a b)
triples-Compared a b = ground arith

-- Of two well-formed versions exactly one holds: the first is newer, the second is newer, or they
-- are equal. If one is malformed, none of the three does.
pub versions-Compared :
    (a b : String)
    → (version_tuple a ≢ none
        → version_tuple b ≢ none
        → Compared (version_is_newer a b) (version_is_newer b a) (versions_equal (some a) (some b)))
      × ((version_tuple a ≡ none) ⊎ (version_tuple b ≡ none)
          → (version_is_newer a b ≡ false)
            × (version_is_newer b a ≡ false)
            × (versions_equal (some a) (some b) ≡ false))
unfolding version_is_newer versions_equal
versions-Compared a b = go (version_tuple a) (version_tuple b)
  where
    go :
        (x y : Option Triple)
        → (x ≢ none → y ≢ none → Compared (newer x y) (newer y x) (equal x y))
          × ((x ≡ none) ⊎ (y ≡ none)
              → (newer x y ≡ false) × (newer y x ≡ false) × (equal x y ≡ false))
    go none none = (λ h k. absurd (h refl), λ h. (refl, refl, refl))
    go none (some y) = (λ h k. absurd (h refl), λ h. (refl, refl, refl))
    go (some x) none = (λ h k. absurd (k refl), λ h. (refl, refl, refl))
    go (some x) (some y) = (λ h k. triples-Compared x y, λ h. ground arith)
