-- ===== src/Tests/Login.antt =====
-- The login flow and its options at concrete data.
use danalock_ble_ha_integrat.Prelude.{
  ℕ, suc, ◌*◌, ◌≤◌, String, none, some, [], ◌∷◌, ◌≡◌, refl, arith, ◌==◌, string_eq, if◌then◌else◌,
}
use danalock_ble_ha_integrat.Prelude.Int.{pos, negsuc}
use danalock_ble_ha_integrat.Prelude.Dict.{lookup, erase}
use danalock_ble_ha_integrat.Prelude.Errors.{ok, raised, auth_error}
use danalock_ble_ha_integrat.Prelude.Hoare.{Ends}
use danalock_ble_ha_integrat.Const.{
  Options, refresh_period_hours, refresh_jitter_hours, max_refresh_period_hours,
  max_refresh_jitter_hours,
}
use danalock_ble_ha_integrat.KeyManager.Timer.{configured, hour}
use danalock_ble_ha_integrat.Storage.{TokenData, new_storage}
use danalock_ble_ha_integrat.Entry.{load_tokens}
use danalock_ble_ha_integrat.ConfigFlow.{
  Login, Flow, form, created, step_user, step_reauth_confirm, step_reconfigure, strip, lower,
  normalized_username,
}
use danalock_ble_ha_integrat.ConfigFlow.Options.{
  both, in_range, submit, proposed_hours, RunsOn, submit-configured, submit-bounds,
}
use danalock_ble_ha_integrat.ConfigFlow.Identity.{normalized_username-same}
use danalock_ble_ha_integrat.ConfigFlow.Clients.{steps_close_client}
use danalock_ble_ha_integrat.ConfigFlow.Outcome.{
  OfUser, OfRevalidation, Kept, step_user_lem, revalidation_lem,
}
use danalock_ble_ha_integrat.ConfigFlow.Answers.{step_user-answer}
use danalock_ble_ha_integrat.ConfigFlow.Handoff.{fresh, step_user-handoff}

abbrev token : TokenData ℕ ℕ
token = record { access_token = 1; refresh_token = 2; expires_at = 3 }

-- An account with one lock behind one password.
abbrev account : Login ℕ
account = record {
  Json = ℕ;
  Float = ℕ;
  of_float = λ x. x;
  float = λ x. some x;
  new_client = λ w. (ok tt, suc w);
  login_password = λ username password w.
      (if password == "right" then ok tt else raised (auth_error "no"), suc w);
  devices = λ w. (ok (record { serial = "aa"; name = none; device_type = none } ∷ []), suc w);
  aclose = λ w. (ok tt, suc w);
  memory_load = λ w. token;
  set_unique_id = λ unique_id w. (ok tt, suc w);
  is_configured = λ unique_id w. unique_id == "taken@example.org";
}

abbrev flow : Flow ℕ ℕ ℕ
flow = record {
  world = 0;
  staged = [];
  open_clients = 0;
  entry = record {
    unique_id = some "old@example.org";
    title = "old@example.org";
    username = "old@example.org";
    storage = new_storage (λ x. x) (λ x. some x) none;
  };
  reloads = [];
}

abbrev typed : String
typed = " Me@Example.org "

normalized_test : (strip typed ≡ "Me@Example.org") × (normalized_username typed ≡ "me@example.org")
unfolding strip normalized_username lower
normalized_test = (refl, refl)

normalized_username-same_example :
    (normalized_username (strip typed) ≡ "me@example.org")
    × (normalized_username (lower typed) ≡ "me@example.org")
    × (normalized_username (normalized_username typed) ≡ "me@example.org")
unfolding strip normalized_username lower
normalized_username-same_example = normalized_username-same typed

steps_close_client_example :
    ((step_user account (some (typed, "wrong")) flow).1.open_clients ≡ 0)
    × ((step_reauth_confirm account (some (typed, "wrong")) flow).1.open_clients ≡ 0)
    × ((step_reconfigure account (some (typed, "wrong")) flow).1.open_clients ≡ 0)
steps_close_client_example = steps_close_client account (λ w. refl) (some (typed, "wrong")) flow

step_user_lem_example :
    Ends
      (OfUser account flow typed "right")
      (λ _. Kept account flow)
      (step_user account (some (typed, "right")) flow)
step_user_lem_example = step_user_lem account typed "right" flow

revalidation_lem_example :
    Ends
      (OfRevalidation account flow typed "right" "reauth_confirm")
      (λ _. Kept account flow)
      (step_reauth_confirm account (some (typed, "right")) flow)
    × Ends
        (OfRevalidation account flow typed "right" "reconfigure")
        (λ _. Kept account flow)
        (step_reconfigure account (some (typed, "right")) flow)
revalidation_lem_example = revalidation_lem account typed "right" flow

step_user-answer_example :
    (step_user account (some (typed, "wrong")) flow).0 ≡ ok (form "user" (some "invalid_auth"))
unfolding strip normalized_username lower string_eq
step_user-answer_example = step_user-answer account (λ w. refl) typed "wrong" flow refl refl refl

created_test :
    (step_user account (some (typed, "right")) flow).0
    ≡ ok (created "Me@Example.org" "Me@Example.org")
unfolding strip normalized_username lower string_eq
created_test = step_user-answer account (λ w. refl) typed "right" flow refl refl refl

step_user-handoff_example :
    let t = (step_user account (some (typed, "right")) flow).1 in
    let u = load_tokens (λ x. x) (λ x. some x) (fresh account "me@example.org" t) in
    ("Me@Example.org" ≡ strip typed)
    × (u.storage.token ≡ some token)
    × (u.staged ≡ some (erase "me@example.org" t.staged))
    × ((k : String)
        → lookup k (erase "me@example.org" t.staged)
          ≡ (if k == "me@example.org" then none else none))
unfolding normalized_username strip lower lookup
step_user-handoff_example =
    step_user-handoff account typed "right" "Me@Example.org" "Me@Example.org" flow created_test

submit-configured_test :
    (saved : Options) × (submit (pos 24) (pos 2) ≡ some saved)
    × RunsOn 24 2 saved
    × (proposed_hours saved ≡ (24, 2))
submit-configured_test = submit-configured 24 2 (omega arith) (omega arith)

abbrev rarest : Options
rarest = (refresh_period_hours, 720) ∷ (refresh_jitter_hours, 0) ∷ []

submit-bounds_example :
    ((configured rarest).period ≤ max_refresh_period_hours * hour)
    × ((configured rarest).jitter ≤ max_refresh_jitter_hours * hour)
unfolding submit both in_range
submit-bounds_example = submit-bounds (pos 720) (pos 0) rarest refl

refused_test : (submit (pos 721) (pos 0) ≡ none) × (submit (pos 0) (negsuc 0) ≡ none)
unfolding submit both in_range
refused_test = (refl, refl)
