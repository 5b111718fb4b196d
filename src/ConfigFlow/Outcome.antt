-- ===== src/ConfigFlow/Outcome.antt =====
-- How the steps of the login flow end, and what they wrote.
use danalock_ble_ha_integrat.Prelude.{
  suc, String, Option, none, some, ◌∷◌, ◌≡◌, ◌∙◌, if◌then◌else◌, ◌⊎◌, inl, inr, refl, arith, ap,
  subst, sym, string_eq,
}
use danalock_ble_ha_integrat.Prelude.Dict.{insert}
use danalock_ble_ha_integrat.Prelude.Errors.{
  Exn, Result, ok, raised, validation_error, try_finally, gets,
}
use danalock_ble_ha_integrat.Prelude.Hoare.{
  Ends, Triple, triple_bind, Keeps, Keeps-finally, Keeps-Triple,
}
use danalock_ble_ha_integrat.Storage.{TokenData, async_save}
use danalock_ble_ha_integrat.ConfigFlow.{
  Login, ConfigEntry, Flow, FlowResult, form, created, updated, FlowAction, on_flow_world,
  stage_pending_tokens, claim, claim_changed, log_in, close_login, with_client, validate, create,
  is_own, refused_with, answered, step_user, update_entry, revalidation_step, step_reauth_confirm,
  step_reconfigure, strip, normalized_username,
}
use danalock_ble_ha_integrat.ConfigFlow.Clients.{log_in-Keeps, claim-Keeps, claim_changed-Keeps}

own-kept :
    (unique_id : String) (own : Option String)
    → (if is_own unique_id own then own else some unique_id) ≡ some unique_id
unfolding is_own
own-kept unique_id none = refl
own-kept unique_id (some own) = ground arith

module _ {W : Type 0} (l : Login W) where
  abbrev pub FlowState : Type 0
  FlowState = Flow W l.Json l.Float

  -- What the flow hands over or changes is as it was: the staged tokens, the entry, the reloads.
  abbrev pub Kept : FlowState → FlowState → Type 0
  Kept s t = (t.staged ≡ s.staged) × (t.entry ≡ s.entry) × (t.reloads ≡ s.reloads)

  module _ (s : FlowState) where
    close_login-Kept : Keeps (Kept s) (close_login l)
    unfolding close_login
    close_login-Kept t k = ground (arith, k)

    with_client-Ends :
        (username password : String)
        → Triple
            (Kept s)
            (with_client l username password)
            (λ token t. (token ≡ l.memory_load t.world) × Kept s t)
            (λ _. Kept s)
    unfolding with_client
    with_client-Ends username password =
        let run = try_finally (log_in l username password) (close_login l) in
        triple_bind (Kept s) (λ _. Kept s) (λ token t. (token ≡ l.memory_load t.world) × Kept s t)
          (λ _. Kept s) (λ _. gets (λ t. l.memory_load t.world)) run
          (Keeps-Triple (Kept s) run (
            Keeps-finally (Kept s) (log_in l username password) (close_login l)
              (log_in-Keeps l (Kept s) (λ t w k. k) username password) close_login-Kept))
          (λ _ t k. (refl, k))

    validate-Ends :
        (username password : String)
        → Triple
            (Kept s)
            (validate l username password)
            (λ token t. (token ≡ l.memory_load t.world) × Kept s t)
            (λ _. Kept s)
    unfolding validate
    validate-Ends username password =
        triple_bind (Kept s) (λ _. Kept s) (λ token t. (token ≡ l.memory_load t.world) × Kept s t)
          (λ _. Kept s)
          (λ _ t. with_client l username password (record t { open_clients = suc t.open_clients }))
          (on_flow_world l l.new_client)
          (Keeps-Triple (Kept s) (on_flow_world l l.new_client) (λ t k. k))
          (λ _ t k.
            with_client-Ends username password (record t { open_clients = suc t.open_clients }) k)

    module _ (step_id : String) (Q : FlowResult → FlowState → Type 0)
        (f : TokenData l.Json l.Float → FlowAction l FlowResult)
        (accepts : (t : FlowState) → Kept s t → Ends Q (λ _. Kept s) (f (l.memory_load t.world) t))
        (refuses : (base : String) (t : FlowState)
          → Kept s t
          → Q (form step_id (some base)) t) where
      refused-Ends :
          (e : Exn) (t : FlowState) → Kept s t → Ends Q (λ _. Kept s) (refused_with step_id e, t)
      unfolding refused_with
      refused-Ends (validation_error base) t k = refuses base t k
      refused-Ends e t k = k

      answered-Ends :
          (x : Result (TokenData l.Json l.Float) × FlowState)
          → Ends (λ token t. (token ≡ l.memory_load t.world) × Kept s t) (λ _. Kept s) x
          → Ends Q (λ _. Kept s) (answered l step_id f x)
      unfolding answered
      answered-Ends (ok token, t) (h, k) =
          subst (λ a. Ends Q (λ _. Kept s) (f a t)) (sym h) (accepts t k)
      answered-Ends (raised e, t) k = refused-Ends e t k

    module _ (user password : String) where
      abbrev pub OfUser : FlowResult → FlowState → Type 0
      OfUser r t =
          ((r ≡ created (strip user) (strip user))
            × (t.staged
                ≡ insert (normalized_username (strip user)) (l.memory_load t.world) s.staged)
            × (t.entry ≡ s.entry)
            × (t.reloads ≡ s.reloads))
          ⊎ ((base : String) × (r ≡ form "user" (some base)) × Kept s t)

      user-Ends : Ends OfUser (λ _. Kept s) (step_user l (some (user, password)) s)
      unfolding step_user create stage_pending_tokens
      user-Ends =
          let username = strip user in
          let unique_id = normalized_username username in
          triple_bind (Kept s) (λ _. Kept s) OfUser (λ _. Kept s)
            (λ _ t.
              answered l "user" (create l username unique_id) (validate l username password t))
            (claim l unique_id)
            (Keeps-Triple (Kept s) (claim l unique_id)
              (claim-Keeps l (Kept s) (λ t w k. k) unique_id))
            (λ _ t k.
              answered-Ends "user" OfUser (create l username unique_id)
                (λ u kept.
                  inl (refl, ap (insert unique_id (l.memory_load u.world)) kept.0, kept.1, kept.2))
                (λ base u kept. inr (base, refl, kept)) (validate l username password t)
                (validate-Ends username password t k))
            s (refl, refl, refl)

      abbrev pub OfRevalidation : String → FlowResult → FlowState → Type 0
      OfRevalidation step_id r t =
          ((r ≡ updated)
            × (t.staged ≡ s.staged)
            × (t.entry ≡ record {
              unique_id = some (normalized_username (strip user));
              title = strip user;
              username = strip user;
              storage = async_save l.of_float l.float (l.memory_load t.world) s.entry.storage;
            })
            × (t.reloads ≡ t.entry ∷ s.reloads))
          ⊎ ((base : String) × (r ≡ form step_id (some base)) × Kept s t)

      revalidation-Ends :
          (step_id : String)
          → Ends
              (OfRevalidation step_id)
              (λ _. Kept s)
              (revalidation_step l step_id (some (user, password)) s)
      unfolding revalidation_step update_entry
      revalidation-Ends step_id =
          let username = strip user in
          triple_bind (Kept s) (λ _. Kept s) (OfRevalidation step_id) (λ _. Kept s)
            (λ _ t. answered l step_id (update_entry l username) (validate l username password t))
            (claim_changed l (normalized_username username))
            (Keeps-Triple (Kept s) (claim_changed l (normalized_username username))
              (claim_changed-Keeps l (Kept s) (λ t w k. k) (normalized_username username)))
            (λ _ t k.
              answered-Ends step_id (OfRevalidation step_id) (update_entry l username)
                (λ u (same_staged, same_entry, same_reloads). inl (
                  refl,
                  same_staged,
                  ap
                        (λ own. record {
                          unique_id = own;
                          title = username;
                          username = username;
                          storage =
                              async_save l.of_float l.float (l.memory_load u.world) u.entry.storage;
                        })
                        (own-kept (normalized_username username) u.entry.unique_id)
                      ∙ ap
                          (λ (e : ConfigEntry l.Json l.Float). record {
                            unique_id = some (normalized_username username);
                            title = username;
                            username = username;
                            storage =
                                async_save l.of_float l.float (l.memory_load u.world) e.storage;
                          })
                          same_entry,
                  ap (λ rs. (update_entry l username (l.memory_load u.world) u).1.entry ∷ rs)
                      same_reloads,
                ))
                (λ base u kept. inr (base, refl, kept)) (validate l username password t)
                (validate-Ends username password t k))
            s (refl, refl, refl)

  -- A login that returns either creates the entry of the stripped username, with the token that the
  -- client saved staged under the normalized one, or shows the form again with an error; then, as
  -- whenever it raises, nothing is staged. No entry is changed or reloaded.
  pub step_user_lem :
      (user password : String) (s : Flow W l.Json l.Float)
      → Ends (OfUser s user password) (λ _. Kept s) (step_user l (some (user, password)) s)
  step_user_lem user password s = user-Ends s user password

  -- A reauthentication or a reconfiguration that returns either saves the new token in the entry's
  -- store and writes the stripped username and its normalized form in the entry, and then schedules
  -- one reload, which finds that token and that entry, or shows its form again with an error; then, as whenever it raises, the entry is
  -- as it was and no reload is scheduled. Neither stages a token.
  pub revalidation_lem :
      (user password : String) (s : Flow W l.Json l.Float)
      → Ends
          (OfRevalidation s user password "reauth_confirm")
          (λ _. Kept s)
          (step_reauth_confirm l (some (user, password)) s)
        × Ends
            (OfRevalidation s user password "reconfigure")
            (λ _. Kept s)
            (step_reconfigure l (some (user, password)) s)
  unfolding step_reauth_confirm step_reconfigure
  revalidation_lem user password s = (
    revalidation-Ends s user password "reauth_confirm",
    revalidation-Ends s user password "reconfigure",
  )
