-- ===== src/Timers.antt =====
-- The attribute that holds the cancel function of one pending timer, as `_cancel_timer` of
-- custom_components/danalock_ble/keymanager.py and `_unsub_cycle` of update.py.
use danalock_ble_ha_integrat.Prelude.{
  ℕ, suc, ◌==◌, inl, inr, Bool-cases, Option, none, some, List, [], ◌∷◌, ◌≡◌, ◌≢◌, refl, arith,
  nat_eq, ap,
}
use danalock_ble_ha_integrat.Prelude.Dict.{Dict, lookup, erase, keys}

-- `handle` is the attribute. `live` are the timers that the event loop holds for it, each with its
-- delay or its point in time; `fresh` numbers the next one.
pub record Slot : Type 0 where
  pub handle : Option ℕ
  pub live : Dict ℕ ℕ
  pub fresh : ℕ

abbrev pub empty_slot : Slot
empty_slot = record { handle = none; live = []; fresh = 0 }

-- The attribute is assigned a new timer.
unfoldable pub arm : ℕ → Slot → Slot
arm time s = record { handle = some s.fresh; live = (s.fresh, time) ∷ s.live; fresh = suc s.fresh }

-- The attribute is assigned None; no timer is cancelled.
unfoldable pub forget : Slot → Slot
forget s = record s { handle = none }

-- `if self._x is not None: self._x(); self._x = None`
unfoldable pub cancel : Slot → Slot
cancel s = elim s.handle [ none ↦ s | some t ↦ record s { handle = none; live = erase t s.live } ]

-- The event loop takes a timer out to call its function.
unfoldable pub expire : ℕ → Slot → Slot
expire t s = record s { live = erase t s.live }

abbrev pub pending : Option ℕ → List ℕ
pending none = []
pending (some t) = t ∷ []

-- The event loop holds the timer of the attribute and no other.
pub IsSingle : Slot → Type 0
IsSingle s = keys s.live ≡ pending s.handle

-- No timer at all.
pub IsIdle : Slot → Type 0
IsIdle s = (s.handle ≡ none) × (s.live ≡ [])

no_keys : (d : Dict ℕ ℕ) → keys d ≡ [] → d ≡ []
no_keys [] h = refl
no_keys (_ ∷ d) h = cc

erase-one : (t : ℕ) (d : Dict ℕ ℕ) → keys d ≡ t ∷ [] → erase t d ≡ []
unfolding erase
erase-one t [] h = refl
erase-one t ((u, time) ∷ []) h = ground (arith, h)
erase-one t (_ ∷ _ ∷ d) h = cc

erase-single :
    (t : ℕ) (handle : Option ℕ) (d : Dict ℕ ℕ)
    → keys d ≡ pending handle
    → lookup t d ≢ none
    → erase t d ≡ []
unfolding lookup erase
erase-single t none d h found = absurd (found (ap (lookup t) (no_keys d h)))
erase-single t (some u) [] h found = absurd (found refl)
erase-single t (some u) ((v, time) ∷ []) h found = elim (Bool-cases (t == v)) [
  | inl same ↦ rw same refl
  | inr differ ↦ absurd (found (rw differ refl))
]
erase-single t (some u) (_ ∷ _ ∷ d) h found = cc

IsIdle-cancelled :
    (handle : Option ℕ) (d : Dict ℕ ℕ) (fresh : ℕ)
    → keys d ≡ pending handle
    → IsIdle (cancel (record { handle = handle; live = d; fresh = fresh }))
unfolding cancel IsIdle
IsIdle-cancelled none d fresh h = (refl, no_keys d h)
IsIdle-cancelled (some t) d fresh h = (refl, erase-one t d h)

pub cancel-IsIdle : (s : Slot) → IsSingle s → IsIdle (cancel s)
unfolding IsSingle
cancel-IsIdle s h = IsIdle-cancelled s.handle s.live s.fresh h

-- The timer that fires is the pending one.
pub expire-IsIdle :
    (t : ℕ) (s : Slot) → IsSingle s → lookup t s.live ≢ none → IsIdle (forget (expire t s))
unfolding IsSingle IsIdle forget expire
expire-IsIdle t s h found = (refl, erase-single t s.handle s.live h found)

pub arm-IsSingle : (time : ℕ) (s : Slot) → IsIdle s → IsSingle (arm time s)
unfolding IsSingle IsIdle arm
arm-IsSingle time s idle = ground (arith, idle.1)

pub idle-IsSingle : (s : Slot) → IsIdle s → IsSingle s
unfolding IsSingle IsIdle
idle-IsSingle s idle = ground (arith, idle.0, idle.1)

pub forget-IsIdle : (s : Slot) → IsIdle s → IsIdle (forget s)
unfolding IsIdle forget
forget-IsIdle s idle = (refl, idle.1)

pub IsIdle-empty : IsIdle empty_slot
unfolding IsIdle
IsIdle-empty = (refl, refl)

pub idle-lookup : (t : ℕ) (s : Slot) → IsIdle s → lookup t s.live ≡ none
unfolding IsIdle lookup
idle-lookup t s idle = ap (lookup t) idle.1
