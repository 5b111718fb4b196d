-- ===== src/ConfigFlow/Handoff.antt =====
-- The token on its way from the login flow to the first setup and from a reauthentication to the reload.
use danalock_ble_ha_integrat.Prelude.{
  String, none, some, ◌≡◌, refl, arith, ap, sym, ◌∙◌, ◌==◌, if◌then◌else◌, inl, inr, string_eq,
}
use danalock_ble_ha_integrat.Prelude.Dict.{
  Dict, lookup, insert, erase, lookup-insert, lookup-insert_self, lookup-erase,
}
use danalock_ble_ha_integrat.Prelude.Errors.{ok}
use danalock_ble_ha_integrat.Prelude.Hoare.{ok_of}
use danalock_ble_ha_integrat.Storage.{
  TokenData, async_load, async_save, token_from_dict, new_storage,
}
use danalock_ble_ha_integrat.Entry.{Tokens, load_tokens, pop_pending_tokens}
use danalock_ble_ha_integrat.ConfigFlow.{
  Login, Flow, created, step_user, strip, normalized_username,
}
use danalock_ble_ha_integrat.ConfigFlow.Outcome.{step_user_lem, OfUser, Kept}

lookup-consumed :
    {V : Type 0} (k unique_id : String) (token : V) (staged : Dict String V)
    → lookup k (erase unique_id (insert unique_id token staged))
      ≡ (if k == unique_id then none else lookup k staged)
lookup-consumed k unique_id token staged = ground (
  arith,
  lookup-erase k unique_id (insert unique_id token staged),
  lookup-insert k unique_id token staged,
)

module _ {W : Type 0} (l : Login W) where
  -- The tokens that the setup of the new entry starts with: no store yet.
  abbrev pub fresh : String → Flow W l.Json l.Float → Tokens l.Json l.Float
  fresh unique_id t = record {
    storage = new_storage l.of_float l.float none;
    staged = some t.staged;
    unique_id = some unique_id;
  }

  loads :
      (unique_id : String) (token : TokenData l.Json l.Float) (t : Flow W l.Json l.Float)
      → lookup unique_id t.staged ≡ some token
      → let u = load_tokens l.of_float l.float (fresh unique_id t) in
        (u.storage.token ≡ some token) × (u.staged ≡ some (erase unique_id t.staged))
  unfolding load_tokens async_load async_save pop_pending_tokens token_from_dict
  loads unique_id token t stages = rw stages (refl, refl)

  created-injective : (t u t' u' : String) → created t u ≡ created t' u' → (t ≡ t') × (u ≡ u')
  created-injective t u t' u' h = (cc, cc)

  -- If the user step creates an entry, the first setup of that entry, with nothing in its store yet,
  -- starts with the token that the login saved; the stage then has no token for its unique id, and
  -- for any other what it had before the step.
  pub step_user-handoff :
      (user password title username : String) (s : Flow W l.Json l.Float)
      → (step_user l (some (user, password)) s).0 ≡ ok (created title username)
      → let t = (step_user l (some (user, password)) s).1 in
        let unique_id = normalized_username username in
        let u = load_tokens l.of_float l.float (fresh unique_id t) in
        (title ≡ strip user)
        × (u.storage.token ≡ some (l.memory_load t.world))
        × (u.staged ≡ some (erase unique_id t.staged))
        × ((k : String)
            → lookup k (erase unique_id t.staged)
              ≡ (if k == unique_id then none else lookup k s.staged))
  step_user-handoff user password title username s done =
      elim (ok_of (OfUser l s user password) (λ _. Kept l s) (step_user l (some (user, password)) s)
        (created title username) (step_user_lem l user password s) done) [
          | inl (same, stages, _, _) ↦
              let (same_title, same_name) =
                created-injective title username (strip user) (strip user) same in
              let unique_id = normalized_username username in
              let t = (step_user l (some (user, password)) s).1 in
              let token = l.memory_load t.world in
              let staged =
                stages ∙ ap (λ n. insert (normalized_username n) token s.staged) (sym same_name) in
              let (loaded, popped) =
                loads unique_id token t
                  (ap (lookup unique_id) staged ∙ lookup-insert_self unique_id token s.staged) in
              (
                same_title,
                loaded,
                popped,
                λ k.
                    ap (λ d. lookup k (erase unique_id d)) staged
                    ∙ lookup-consumed k unique_id token s.staged,
              )
          | inr (base, other, _) ↦ cc
        ]
