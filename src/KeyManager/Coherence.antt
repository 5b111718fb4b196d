-- ===== src/KeyManager/Coherence.antt =====
-- The shared dict and the facades agree, and a background refresh reaches every serial.
use danalock_ble_ha_integrat.Prelude.{
  inl, inr, ap, ◌∙◌, String, Bool, true, some, List, [], ◌∷◌, ◌≡◌, refl, arith, contains, string_eq,
}
use danalock_ble_ha_integrat.Prelude.Dict.{lookup, keys, lookup-insert}
use danalock_ble_ha_integrat.Prelude.Errors.{
  Exn, ok, Result-cases, auth_error, cloud_error, http_error, pure,
}
use danalock_ble_ha_integrat.Prelude.Hoare.{Keeps-bind, Keeps-catch}
use danalock_ble_ha_integrat.Pydanalock.{DeviceKey}
use danalock_ble_ha_integrat.Outside.{Outside, Runtime, Call, fetched, attempted, disconnected}
use danalock_ble_ha_integrat.KeyManager.{
  notify, close, set_key, push_key, refresh_normalized, refresh, on_refresh_error, refresh_one,
  refresh_each, refresh_all,
}
use danalock_ble_ha_integrat.KeyManager.Refresh.{ClosesQuietly, FailsAsCloud}

-- The facade of every bound control has the token of its serial's key in the shared dict.
abbrev pub IsCoherent : {W : Type 0} → Runtime W → Type 0
IsCoherent s =
    (j : String) (k : DeviceKey)
    → contains s.controls j ≡ true
    → lookup j s.keys ≡ some k
    → s.tokens j ≡ k.login_blob

module _ (o : Outside) (quiet : ClosesQuietly o) where
  -- A refresh, however it ends, leaves the dict and the facades in agreement.
  refresh-IsCoherent_lem :
      (serial : String) (force : Bool) (s : Runtime o.World)
      → IsCoherent s
      → IsCoherent (refresh o serial force s).1
  unfolding refresh refresh_normalized push_key set_key close notify
  refresh-IsCoherent_lem serial force s h j k bound found =
      let n = o.normalize_serial serial in
      let w = (o.get_key n force s.world).1 in
      elim (Result-cases (o.get_key n force s.world).0) [
        | inl (a, e) ↦ ground (
          arith,
          e,
          quiet (record { serial = n; login_token = s.tokens n }) w,
          h j k,
          lookup-insert j n a s.keys,
        )
        | inr (x, e) ↦ ground (arith, e, h j k)
      ]

  on_refresh_error-IsCoherent :
      (e : Exn) (s : Runtime o.World) → IsCoherent s → IsCoherent (on_refresh_error o e s).1
  unfolding on_refresh_error
  on_refresh_error-IsCoherent (auth_error m) s h = h
  on_refresh_error-IsCoherent (cloud_error m) s h = h
  on_refresh_error-IsCoherent (http_error m) s h = h
  on_refresh_error-IsCoherent e s h = h

  refresh_one-IsCoherent :
      (serial : String) (s : Runtime o.World) → IsCoherent s → IsCoherent (refresh_one o serial s).1
  unfolding refresh_one
  refresh_one-IsCoherent serial =
      Keeps-catch IsCoherent _ (on_refresh_error o)
        (Keeps-bind IsCoherent (refresh o serial true) (λ _. pure tt)
          (refresh-IsCoherent_lem serial true) (λ _ s h. h))
        on_refresh_error-IsCoherent

  refresh_each-IsCoherent :
      (serials : List String) (s : Runtime o.World)
      → IsCoherent s
      → IsCoherent (refresh_each o serials s).1
  unfolding refresh_each
  refresh_each-IsCoherent [] s h = h
  refresh_each-IsCoherent (serial ∷ rest) s h =
      Keeps-bind IsCoherent (refresh_one o serial) (λ _. refresh_each o rest)
        (refresh_one-IsCoherent serial) (λ _. refresh_each-IsCoherent rest) s h

-- If the facades' disconnect does not raise: when every bound control's facade has the token of its
-- key in the shared dict before one refresh or a refresh of all keys, so it is afterwards, whichever
-- fetches succeed and however the refresh ends.
pub refresh_all-IsCoherent :
    (o : Outside) (serial : String) (force : Bool) (s : Runtime o.World)
    → ClosesQuietly o
    → IsCoherent s
    → IsCoherent (refresh o serial force s).1 × IsCoherent (refresh_all o s).1
unfolding refresh_all
refresh_all-IsCoherent o serial force s quiet h = (
  refresh-IsCoherent_lem o quiet serial force s h,
  refresh_each-IsCoherent o quiet (keys s.keys) s h,
)

-- The serials of the fetches, the latest first.
abbrev pub fetches : List Call → List (String × Bool)
fetches [] = []
fetches (fetched serial force ∷ cs) = (serial, force) ∷ fetches cs
fetches (attempted f ∷ cs) = fetches cs
fetches (disconnected f ∷ cs) = fetches cs

-- Each serial, latest first, fetched by force under its normalized form, above the earlier fetches.
abbrev pub all_fetched :
    (String → String) → List String → List (String × Bool) → List (String × Bool)
all_fetched normalize [] earlier = earlier
all_fetched normalize (serial ∷ rest) earlier =
    all_fetched normalize rest ((normalize serial, true) ∷ earlier)

module _ (o : Outside) (quiet : ClosesQuietly o) (failing : FailsAsCloud o) where
  refresh_one_lem :
      (serial : String) (s : Runtime o.World)
      → ((refresh_one o serial s).0 ≡ ok tt)
        × (fetches (refresh_one o serial s).1.calls
            ≡ (o.normalize_serial serial, true) ∷ fetches s.calls)
  unfolding refresh_one refresh refresh_normalized push_key set_key close notify on_refresh_error
  refresh_one_lem serial s =
      let n = o.normalize_serial serial in
      let w = (o.get_key n true s.world).1 in
      let q = quiet (record { serial = n; login_token = s.tokens n }) w in
      elim (Result-cases (o.get_key n true s.world).0) [
        | inl (a, e) ↦ (ground (arith, e, q), ground (arith, e, q))
        | inr (x, e) ↦ (
          ground (arith, e, failing n true s.world x e),
          ground (arith, e, failing n true s.world x e),
        )
      ]

  refresh_each_lem :
      (serials : List String) (s : Runtime o.World)
      → ((refresh_each o serials s).0 ≡ ok tt)
        × (fetches (refresh_each o serials s).1.calls
            ≡ all_fetched o.normalize_serial serials (fetches s.calls))
  unfolding refresh_each
  refresh_each_lem [] s = (refl, refl)
  refresh_each_lem (serial ∷ rest) s =
      let one = refresh_one_lem serial s in
      let ih = refresh_each_lem rest (refresh_one o serial s).1 in
      (
        ground (arith, one.0, ih.0),
        ground (arith, one.0, ih.1 ∙ ap (all_fetched o.normalize_serial rest) one.1),
      )

-- If fetches fail by cloud and network errors only and the facades' disconnect does not raise, a
-- refresh of all keys returns and has fetched every serial of the shared dict by force, once and in
-- order, whichever of the fetches failed.
pub refresh_all_total :
    (o : Outside) (s : Runtime o.World)
    → ClosesQuietly o
    → FailsAsCloud o
    → ((refresh_all o s).0 ≡ ok tt)
      × (fetches (refresh_all o s).1.calls
          ≡ all_fetched o.normalize_serial (keys s.keys) (fetches s.calls))
unfolding refresh_all
refresh_all_total o s quiet failing = refresh_each_lem o quiet failing (keys s.keys) s
