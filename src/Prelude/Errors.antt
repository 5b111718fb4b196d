-- ===== src/Prelude/Errors.antt =====
-- Python exceptions and handlers: a handler acts on a state and ends with a value or a raise. What
-- was written before a raise stays written.
use Prim.Native.Nat.{ℕ}
use Prim.Native.String.{String}
use mathlib.Core.Path.{◌≡◌, refl, ap}
use mathlib.Core.Logic.{◌⊎◌, inl, inr}
use mathlib.Core.Bool.{Bool, true, false}

-- The exception classes that the integration names, with their text; a CommandError has the name and
-- the number of the status that the lock answered. `cancelled` is asyncio's CancelledError, which
-- is a BaseException and no Exception; `other` is any other Exception. The cloud library's
-- DanalockCloudError is `cloud_error` and, as its subclass, `auth_error`.
pub data Exn : Type 0 where
  command_error : String → ℕ → Exn
  timeout_error channel_closed bleak_error tls_session_error : String → Exn
  auth_error cloud_error http_error : String → Exn
  value_error runtime_error key_error other : String → Exn
  cancelled : Exn
  lock_control_error lock_address_unknown_error : String → Exn
  home_assistant_error service_validation_error : String → Exn
  config_entry_auth_failed config_entry_not_ready abort_flow validation_error : String → Exn

pub data Result (A : Type 0) : Type 0 where
  ok : A → Result A
  raised : Exn → Result A

pub Result-cases :
    {A : Type 0} (r : Result A) → ((a : A) × (r ≡ ok a)) ⊎ ((e : Exn) × (r ≡ raised e))
Result-cases (ok a) = inl (a, refl)
Result-cases (raised e) = inr (e, refl)

abbrev pub Action : Type 0 → Type 0 → Type 0
Action S A = S → Result A × S

abbrev pub pure : {S A : Type 0} → A → Action S A
pure a s = (ok a, s)

abbrev pub raise : {S A : Type 0} → Exn → Action S A
raise e s = (raised e, s)

infixl 5 ◌>>=◌ ◌>>◌
abbrev pub ◌>>=◌ : {S A B : Type 0} → Action S A → (A → Action S B) → Action S B
◌>>=◌ m f s = let (r, t) = m s in elim r [ ok a ↦ f a t | raised e ↦ (raised e, t) ]

abbrev pub ◌>>◌ : {S A B : Type 0} → Action S A → Action S B → Action S B
m >> k = m >>= λ _. k

abbrev pub caught : {S A : Type 0} → (Exn → Action S A) → Result A × S → Result A × S
caught handler x = elim (x.0) [ ok a ↦ (ok a, x.1) | raised e ↦ handler e x.1 ]

-- `try: m except: handler`
abbrev pub catch : {S A : Type 0} → Action S A → (Exn → Action S A) → Action S A
catch m handler s = caught handler (m s)

-- The end of `try: m finally: cleanup`: an exception of the cleanup replaces what was pending.
abbrev pub replaced_by : {A : Type 0} → Result A → Result (Unit {0}) → Result A
replaced_by r (ok _) = r
replaced_by r (raised e) = raised e

abbrev pub after_cleanup : {S A : Type 0} → Result A → Result (Unit {0}) × S → Result A × S
after_cleanup r y = (replaced_by r y.0, y.1)

abbrev pub try_finally : {S A : Type 0} → Action S A → Action S (Unit {0}) → Action S A
try_finally m cleanup s = let (r, t) = m s in after_cleanup r (cleanup t)

abbrev pub modify : {S : Type 0} → (S → S) → Action S (Unit {0})
modify f s = (ok tt, f s)

abbrev pub gets : {S A : Type 0} → (S → A) → Action S A
gets f s = (ok (f s), s)

-- `except Exception`
abbrev pub is_exception : Exn → Bool
is_exception cancelled = false
is_exception _ = true

-- `except (DanalockCloudError, httpx.HTTPError)`
abbrev pub is_cloud_failure : Exn → Bool
is_cloud_failure (auth_error m) = true
is_cloud_failure (cloud_error m) = true
is_cloud_failure (http_error m) = true
is_cloud_failure _ = false

-- `except (TimeoutError, ChannelClosed, BleakError, TlsSessionError)`
abbrev pub is_transport_failure : Exn → Bool
is_transport_failure (timeout_error m) = true
is_transport_failure (channel_closed m) = true
is_transport_failure (bleak_error m) = true
is_transport_failure (tls_session_error m) = true
is_transport_failure _ = false

-- `str(err)` of an exception that carries a text.
abbrev pub text : Exn → String
text (timeout_error m) = m
text (channel_closed m) = m
text (bleak_error m) = m
text (tls_session_error m) = m
text (auth_error m) = m
text (cloud_error m) = m
text (http_error m) = m
text (value_error m) = m
text (runtime_error m) = m
text (key_error m) = m
text (other m) = m
text (lock_control_error m) = m
text (lock_address_unknown_error m) = m
text (home_assistant_error m) = m
text (service_validation_error m) = m
text (config_entry_auth_failed m) = m
text (config_entry_not_ready m) = m
text (abort_flow m) = m
text (validation_error m) = m
text (command_error name status) = name
text cancelled = ""

-- A sequence whose first part is known.
pub >>=-ok :
    {S A B : Type 0} (m : Action S A) (f : A → Action S B) (s : S) (a : A) (t : S)
    → m s ≡ (ok a, t)
    → (m >>= f) s ≡ f a t
>>=-ok {S} {A} {B} m f s a t h =
    ap (λ x. elim (x.0) as (λ _. Result B × S) [ ok b ↦ f b x.1 | raised e ↦ (raised e, x.1) ]) h

pub >>=-raised :
    {S A B : Type 0} (m : Action S A) (f : A → Action S B) (s : S) (e : Exn) (t : S)
    → m s ≡ (raised e, t)
    → (m >>= f) s ≡ (raised e, t)
>>=-raised {S} {A} {B} m f s e t h =
    ap (λ x. elim (x.0) as (λ _. Result B × S) [ ok b ↦ f b x.1 | raised y ↦ (raised y, x.1) ]) h
