-- ===== src/Prelude/Dict.antt =====
-- A Python dict in insertion order, as an association list.
use mathlib.Core.Path.{◌≡◌, refl, subst}
use mathlib.Core.Logic.{◌≢◌, ◌↔◌, inl, inr}
use mathlib.Core.Bool.{true}
use mathlib.Core.Option.{Option, none, some, some-injective}
use mathlib.Core.List.{List, [], ◌∷◌}
use native.Mathlib.Omega.{arith}
use danalock_ble_ha_integrat.Prelude.Tests.{Bool-cases, if◌then◌else◌}
use danalock_ble_ha_integrat.Prelude.Equality.{Eq, ◌==◌, contains}

abbrev pub Dict {ℓ κ} : Type ℓ → Type κ → Type (ℓ ⊔ κ)
Dict K V = List (K × V)

abbrev pub keys {ℓ κ} : {K : Type ℓ} {V : Type κ} → Dict K V → List K
keys [] = []
keys ((k, v) ∷ d) = k ∷ keys d

abbrev pub values {ℓ κ} : {K : Type ℓ} {V : Type κ} → Dict K V → List V
values [] = []
values ((k, v) ∷ d) = v ∷ values d

module _ {ℓ κ} {K : Type ℓ} {V : Type κ} ⦃e : Eq K⦄ where
  -- `d.get(k)`
  unfoldable pub lookup : K → Dict K V → Option V
  lookup k [] = none
  lookup k ((j, v) ∷ d) = if k == j then some v else lookup k d

  -- `d[k] = v`
  unfoldable pub insert : K → V → Dict K V → Dict K V
  insert k v [] = (k, v) ∷ []
  insert k v ((j, w) ∷ d) = if k == j then (k, v) ∷ d else (j, w) ∷ insert k v d

  -- `d.pop(k, None)`. Every entry of the key goes; a real dict has at most one.
  unfoldable pub erase : K → Dict K V → Dict K V
  erase k [] = []
  erase k ((j, w) ∷ d) = let rest = erase k d in if k == j then rest else (j, w) ∷ rest

  pub lookup-nil : (k : K) → lookup k [] ≡ none
  unfolding lookup
  lookup-nil k = refl

  pub lookup-insert :
      (j k : K) (v : V) (d : Dict K V)
      → lookup j (insert k v d) ≡ (if j == k then some v else lookup j d)
  unfolding insert lookup
  lookup-insert j k v [] = refl
  lookup-insert j k v (_ ∷ d) = ground (arith, lookup-insert j k v d)

  pub lookup-insert_self : (k : K) (v : V) (d : Dict K V) → lookup k (insert k v d) ≡ some v
  lookup-insert_self k v d = ground (arith, lookup-insert k k v d)

  pub lookup-insert_ne :
      (j k : K) (v : V) (d : Dict K V) → j ≢ k → lookup j (insert k v d) ≡ lookup j d
  lookup-insert_ne j k v d h = ground (arith, lookup-insert j k v d)

  pub lookup-erase :
      (j k : K) (d : Dict K V) → lookup j (erase k d) ≡ (if j == k then none else lookup j d)
  unfolding erase lookup
  lookup-erase j k [] = ground arith
  lookup-erase j k (_ ∷ d) = ground (arith, lookup-erase j k d)

  -- Writing to a key that is there keeps the keys and their order.
  pub keys-insert :
      (k : K) (v : V) (d : Dict K V) → lookup k d ≢ none → keys (insert k v d) ≡ keys d
  unfolding insert lookup
  keys-insert k v [] h = absurd (h refl)
  keys-insert k v (_ ∷ d) h = ground (arith, keys-insert k v d)

  pub contains-keys : (d : Dict K V) (k : K) → (contains (keys d) k ≡ true) ↔ (lookup k d ≢ none)
  unfolding lookup
  contains-keys [] k = (λ h. cc, λ h. absurd (h refl))
  contains-keys (_ ∷ d) k = ground (arith, contains-keys d k)

-- `{k: f(k) for k in xs}` of distinct keys, and the dict after each value is mapped.
module _ {ℓ κ} {K : Type ℓ} {V : Type κ} where
  abbrev pub tabulate : (K → V) → List K → Dict K V
  tabulate f [] = []
  tabulate f (x ∷ xs) = (x, f x) ∷ tabulate f xs

  abbrev pub map_values : (K → V → V) → Dict K V → Dict K V
  map_values f [] = []
  map_values f ((k, v) ∷ d) = (k, f k v) ∷ map_values f d

module _ {ℓ κ} {K : Type ℓ} {V : Type κ} ⦃e : Eq K⦄ where
  pub lookup-map_values :
      (k : K) (f : K → V → V) (d : Dict K V) {v : V}
      → lookup k d ≡ some v
      → lookup k (map_values f d) ≡ some (f k v)
  unfolding lookup
  lookup-map_values k f [] h = cc
  lookup-map_values k f ((j, w) ∷ d) {v} h = ground (arith, lookup-map_values k f d {v = v})

  pub lookup-tabulate :
      (k : K) (f : K → V) (ks : List K)
      → lookup k (tabulate f ks) ≡ (if contains ks k then some (f k) else none)
  unfolding lookup
  lookup-tabulate k f [] = refl
  lookup-tabulate k f (_ ∷ ks) = ground (arith, lookup-tabulate k f ks)

abbrev pub AllValues {ℓ κ μ} : {K : Type ℓ} {V : Type κ} → (V → Type μ) → Dict K V → Type μ
AllValues P [] = Unit
AllValues P ((k, v) ∷ d) = P v × AllValues P d

module _ {ℓ κ μ} {K : Type ℓ} {V : Type κ} (P : V → Type μ) where
  pub AllValues-map_values :
      (f : K → V → V) (d : Dict K V)
      → ((k : K) (v : V) → P v → P (f k v))
      → AllValues P d
      → AllValues P (map_values f d)
  AllValues-map_values f [] h a = tt
  AllValues-map_values f ((k, v) ∷ d) h a = (h k v a.0, AllValues-map_values f d h a.1)

  pub AllValues-tabulate :
      (f : K → V) (ks : List K) → ((k : K) → P (f k)) → AllValues P (tabulate f ks)
  AllValues-tabulate f [] h = tt
  AllValues-tabulate f (k ∷ ks) h = (h k, AllValues-tabulate f ks h)

module _ {ℓ κ μ} {K : Type ℓ} {V : Type κ} ⦃e : Eq K⦄ (P : V → Type μ) where
  pub AllValues-insert :
      (k : K) (v : V) (d : Dict K V) → P v → AllValues P d → AllValues P (insert k v d)
  unfolding insert
  AllValues-insert k v [] p a = (p, tt)
  AllValues-insert k v ((j, w) ∷ d) p a = elim (Bool-cases (k == j)) [
    | inl same ↦ rw same (p, a.1)
    | inr differ ↦ rw differ (a.0, AllValues-insert k v d p a.1)
  ]

  pub AllValues-lookup : (k : K) (d : Dict K V) {v : V} → AllValues P d → lookup k d ≡ some v → P v
  unfolding lookup
  AllValues-lookup k [] a h = cc
  AllValues-lookup k ((j, w) ∷ d) {v} a h = elim (Bool-cases (k == j)) [
    | inl same ↦ subst P (some-injective w v (rw same at h)) a.0
    | inr differ ↦ AllValues-lookup k d a.1 (rw differ at h)
  ]
