-- ===== src/Prelude/Hoare.antt =====
-- Pre- and postconditions of handlers, one postcondition for each way to end.
use mathlib.Core.Path.{◌≡◌, refl, subst}
use danalock_ble_ha_integrat.Prelude.Errors.{
  Exn, Result, ok, raised, Action, ◌>>=◌, catch, try_finally, after_cleanup,
}

-- A handler that ended in this result and state meets `Q`, or `E` if it raised.
abbrev pub Ends : {S A : Type 0} → (A → S → Type 0) → (Exn → S → Type 0) → Result A × S → Type 0
Ends Q E (ok a, t) = Q a t
Ends Q E (raised e, t) = E e t

abbrev pub Triple :
    {S A : Type 0} → (S → Type 0) → Action S A → (A → S → Type 0) → (Exn → S → Type 0) → Type 0
Triple {S} I m Q E = (s : S) → I s → Ends Q E (m s)

raised-injective : {A : Type 0} (e e' : Exn) → ◌≡◌ {A = Result A} (raised e) (raised e') → e ≡ e'
raised-injective e e' h = cc

pub Ends-of :
    {S A : Type 0} (Q : A → S → Type 0) (E : Exn → S → Type 0) (x : Result A × S)
    → ((a : A) → x.0 ≡ ok a → Q a x.1)
    → ((e : Exn) → x.0 ≡ raised e → E e x.1)
    → Ends Q E x
Ends-of Q E (ok a, t) h k = h a refl
Ends-of Q E (raised e, t) h k = k e refl

-- A weaker postcondition.
pub Ends-map :
    {S A : Type 0} (Q Q' : A → S → Type 0) (E : Exn → S → Type 0) (x : Result A × S)
    → ((a : A) (t : S) → Q a t → Q' a t)
    → Ends Q E x
    → Ends Q' E x
Ends-map Q Q' E (ok a, t) f h = f a t h
Ends-map Q Q' E (raised e, t) f h = h

-- How a handler that keeps to its rule can have raised.
pub raised_of :
    {S A : Type 0} (Q : A → S → Type 0) (E : Exn → S → Type 0) (x : Result A × S) (e : Exn)
    → Ends Q E x
    → x.0 ≡ raised e
    → E e x.1
raised_of Q E (ok a, t) e h r = cc
raised_of Q E (raised e', t) e h r = subst (λ y. E y t) (raised-injective e' e r) h

ok-injective : {A : Type 0} (a b : A) → ◌≡◌ {A = Result A} (ok a) (ok b) → a ≡ b
ok-injective a b h = cc

-- How it can have returned.
pub ok_of :
    {S A : Type 0} (Q : A → S → Type 0) (E : Exn → S → Type 0) (x : Result A × S) (a : A)
    → Ends Q E x
    → x.0 ≡ ok a
    → Q a x.1
ok_of Q E (ok b, t) a h r = subst (λ y. Q y t) (ok-injective b a r) h
ok_of Q E (raised e, t) a h r = cc

module _ {S A B : Type 0} (I : S → Type 0) (R : A → S → Type 0) (Q : B → S → Type 0)
    (E : Exn → S → Type 0) (f : A → Action S B) where
  bind-Ends :
      (x : Result A × S)
      → Ends R E x
      → ((a : A) → Triple (R a) (f a) Q E)
      → Ends Q E (elim (x.0) [ ok a ↦ f a x.1 | raised e ↦ (raised e, x.1) ])
  bind-Ends (ok a, t) h k = k a t h
  bind-Ends (raised e, t) h k = h

  -- The rule for a sequence.
  pub triple_bind :
      (m : Action S A)
      → Triple I m R E
      → ((a : A) → Triple (R a) (f a) Q E)
      → Triple I (m >>= f) Q E
  triple_bind m h k s i = bind-Ends (m s) (h s i) k

module _ {S A : Type 0} (I : S → Type 0) (Q : A → S → Type 0) (F E : Exn → S → Type 0)
    (handler : Exn → Action S A) where
  catch-Ends :
      (x : Result A × S)
      → Ends Q F x
      → ((e : Exn) → Triple (F e) (handler e) Q E)
      → Ends Q E (elim (x.0) [ ok a ↦ (ok a, x.1) | raised e ↦ handler e x.1 ])
  catch-Ends (ok a, t) h k = h
  catch-Ends (raised e, t) h k = k e t h

  -- The rule for `try` and `except`.
  pub triple_catch :
      (m : Action S A)
      → Triple I m Q F
      → ((e : Exn) → Triple (F e) (handler e) Q E)
      → Triple I (catch m handler) Q E
  triple_catch m h k s i = catch-Ends (m s) (h s i) k

module _ {S A : Type 0} (I : S → Type 0) (R Q : A → S → Type 0) (F E : Exn → S → Type 0)
    (cleanup : Action S (Unit {0})) where
  Ends-ok :
      (a : A) (y : Result (Unit {0}) × S) → Ends (λ _. Q a) E y → Ends Q E (after_cleanup (ok a) y)
  Ends-ok a (ok u, t) h = h
  Ends-ok a (raised e, t) h = h

  Ends-raised :
      (e : Exn) (y : Result (Unit {0}) × S)
      → Ends (λ _. E e) E y
      → Ends Q E (after_cleanup (raised e) y)
  Ends-raised e (ok u, t) h = h
  Ends-raised e (raised e', t) h = h

  finally-Ends :
      (x : Result A × S)
      → Ends R F x
      → ((a : A) → Triple (R a) cleanup (λ _. Q a) E)
      → ((e : Exn) → Triple (F e) cleanup (λ _. E e) E)
      → Ends Q E (after_cleanup x.0 (cleanup x.1))
  finally-Ends (ok a, t) h k l = Ends-ok a (cleanup t) (k a t h)
  finally-Ends (raised e, t) h k l = Ends-raised e (cleanup t) (l e t h)

  -- The rule for `try` and `finally`.
  pub triple_finally :
      (m : Action S A)
      → Triple I m R F
      → ((a : A) → Triple (R a) cleanup (λ _. Q a) E)
      → ((e : Exn) → Triple (F e) cleanup (λ _. E e) E)
      → Triple I (try_finally m cleanup) Q E
  triple_finally m h k l s i = finally-Ends (m s) (h s i) k l

-- The handler keeps `I`, whether it returns or raises.
abbrev pub Keeps : {S A : Type 0} → (S → Type 0) → Action S A → Type 0
Keeps {S} I m = (s : S) → I s → I (m s).1

-- A handler that leads to `Q`, whether it returns or raises, before one that keeps it.
pub Leads-bind :
    {S A B : Type 0} (P Q : S → Type 0) (m : Action S A) (f : A → Action S B)
    → ((s : S) → P s → Q (m s).1)
    → ((a : A) → Keeps Q (f a))
    → (s : S) → P s
    → Q ((m >>= f) s).1
Leads-bind {S} {A} {B} P Q m f h k s i = go (m s) (h s i)
  where
    go :
        (x : Result A × S)
        → Q x.1
        → Q (elim (x.0) as (λ _. Result B × S) [ ok a ↦ f a x.1 | raised e ↦ (raised e, x.1) ]).1
    go (ok a, t) j = k a t j
    go (raised e, t) j = j

module _ {S : Type 0} (I : S → Type 0) where
  pub Keeps-bind :
      {A B : Type 0} (m : Action S A) (f : A → Action S B)
      → Keeps I m
      → ((a : A) → Keeps I (f a))
      → Keeps I (m >>= f)
  Keeps-bind m f h k = Leads-bind I I m f h k

  pub Keeps-catch :
      {A : Type 0} (m : Action S A) (handler : Exn → Action S A)
      → Keeps I m
      → ((e : Exn) → Keeps I (handler e))
      → Keeps I (catch m handler)
  Keeps-catch {A} m handler h k s i = go (m s) (h s i)
    where
      go :
          (x : Result A × S)
          → I x.1
          → I
              (elim (x.0) as (λ _. Result A × S) [
                | ok a ↦ (ok a, x.1)
                | raised e ↦ handler e x.1
              ]).1
      go (ok a, t) j = j
      go (raised e, t) j = k e t j

  pub Keeps-finally :
      {A : Type 0} (m : Action S A) (cleanup : Action S (Unit {0}))
      → Keeps I m
      → Keeps I cleanup
      → Keeps I (try_finally m cleanup)
  Keeps-finally m cleanup h k s i = k (m s).1 (h s i)

  -- A handler that keeps it has it after both endings.
  pub Keeps-Triple : {A : Type 0} (m : Action S A) → Keeps I m → Triple I m (λ _. I) (λ _. I)
  Keeps-Triple m h s i = Ends-of (λ _. I) (λ _. I) (m s) (λ _ _. h s i) (λ _ _. h s i)
