-- ===== src/Tests/Commands.antt =====
-- The key manager and the controls at concrete data.
use danalock_ble_ha_integrat.Prelude.{
  ◌≤◌, String, true, some, [], ◌∷◌, ◌≡◌, refl, ◌≢◌, arith, string_eq, nat_eq, contains,
}
use danalock_ble_ha_integrat.Prelude.Dict.{lookup}
use danalock_ble_ha_integrat.Prelude.Errors.{
  ok, raised, cloud_error, bleak_error, lock_control_error,
}
use danalock_ble_ha_integrat.Outside.{Facade, fetched, attempted, disconnected}
use danalock_ble_ha_integrat.KeyManager.{
  refresh, refresh_all, refresh_normalized, push_key, set_key, close,
}
use danalock_ble_ha_integrat.KeyManager.Refresh.{refresh_propagates, refresh_half_done}
use danalock_ble_ha_integrat.KeyManager.Coherence.{
  IsCoherent, refresh_all-IsCoherent, fetches, refresh_all_total,
}
use danalock_ble_ha_integrat.Control.{
  lock, unlock, operate, run_command, attempt_call, call_facade, format_status,
  refresh_failed_message,
}
use danalock_ble_ha_integrat.Control.Sessions.{
  operate-Settled, run_command-Settled, Settled, attempts,
}
use danalock_ble_ha_integrat.Control.Told.{operate-told}
use danalock_ble_ha_integrat.Control.Retry.{operate_retried, operate_not_refreshed}
use danalock_ble_ha_integrat.Control.Mapped.{reports, commands_report}
use danalock_ble_ha_integrat.Tests.Samples.{
  old_key, new_key, outside, offline, stuck, runtime, valid_runtime,
}

status_texts :
    (format_status 7 ≡ "0x07") × (format_status 0x5e ≡ "0x5e") × (format_status 300 ≡ "0x12c")
unfolding format_status
status_texts = (refl, refl, refl)

refresh_propagates_test :
    let t = (refresh outside "bb" true runtime).1 in
    (lookup "bb" t.keys ≡ some new_key)
    × (contains {A = String} ("bb" ∷ []) "bb" ≡ true → t.tokens "bb" ≡ 7 ∷ [])
    × ((j : String)
        → j ≢ "bb"
        → (lookup j t.keys ≡ lookup j runtime.keys) × (t.tokens j ≡ runtime.tokens j))
unfolding refresh refresh_normalized push_key set_key close string_eq
refresh_propagates_test = refresh_propagates outside "bb" true new_key runtime refl

refresh_half_done_example :
    let r = refresh stuck "bb" true runtime in
    (r.0 ≡ raised (bleak_error "gone"))
    × (lookup "bb" r.1.keys ≡ some new_key)
    × (r.1.tokens ≡ runtime.tokens)
unfolding string_eq
refresh_half_done_example =
    refresh_half_done stuck "bb" true new_key (bleak_error "gone") runtime refl refl (λ f w. refl)

runtime-IsCoherent : IsCoherent runtime
unfolding lookup
runtime-IsCoherent j k bound found = ground arith

refresh_all-IsCoherent_example :
    IsCoherent (refresh outside "bb" true runtime).1 × IsCoherent (refresh_all outside runtime).1
refresh_all-IsCoherent_example =
    refresh_all-IsCoherent outside "bb" true runtime (λ f w. refl) runtime-IsCoherent

refresh_all_total_example :
    ((refresh_all offline runtime).0 ≡ ok tt)
    × (fetches (refresh_all offline runtime).1.calls ≡ ("bb", true) ∷ [])
refresh_all_total_example =
    refresh_all_total offline runtime (λ f w. refl) (λ serial force w e h. ground arith)

operate-Settled_example :
    Settled (operate outside "bb" unlock runtime).1.calls
    × (attempts (operate outside "bb" unlock runtime).1.calls ≤ 2)
operate-Settled_example = operate-Settled outside "bb" unlock runtime tt

run_command-Settled_test :
    let t =
      (run_command outside "bb" "settings read"
        (attempt_call outside "bb" (call_facade outside "bb" outside.settings))
        runtime).1 in
    Settled t.calls × (attempts t.calls ≤ 2)
run_command-Settled_test =
    run_command-Settled outside "bb" "settings read" outside.settings runtime tt

abbrev old_facade : Facade
old_facade = record { serial = "bb"; login_token = [] }

abbrev new_facade : Facade
new_facade = record { serial = "bb"; login_token = 7 ∷ [] }

operate-told_test :
    ((operate outside "bb" lock valid_runtime).0 ≡ ok tt)
    × ((operate outside "bb" lock valid_runtime).1.calls
        ≡ disconnected new_facade ∷ attempted new_facade ∷ [])
unfolding lookup string_eq
operate-told_test =
    operate-told outside "bb" lock valid_runtime old_key (λ f w. refl) refl refl refl

operate_retried_example :
    ((operate outside "bb" lock runtime).0 ≡ ok tt)
    × ((operate outside "bb" lock runtime).1.calls
        ≡ disconnected new_facade
          ∷ attempted new_facade
          ∷ disconnected old_facade
          ∷ fetched "bb" true
          ∷ disconnected old_facade
          ∷ attempted old_facade
          ∷ [])
unfolding lookup string_eq
operate_retried_example =
    operate_retried outside "bb" lock runtime old_key new_key (λ f w. refl) refl refl refl refl refl
      refl

operate_not_refreshed_test :
    let t = operate offline "bb" lock runtime in
    (t.0 ≡ raised (lock_control_error (refresh_failed_message (cloud_error "down"))))
    × (t.1.calls ≡ fetched "bb" true ∷ disconnected old_facade ∷ attempted old_facade ∷ [])
    × (t.1.keys ≡ runtime.keys)
    × (t.1.tokens ≡ runtime.tokens)
unfolding lookup string_eq
operate_not_refreshed_test =
    operate_not_refreshed offline "bb" lock runtime old_key (cloud_error "down") (λ f w. refl) refl
      refl refl refl refl refl

commands_report_example :
    (reports (operate offline "bb" lock runtime).0 ≡ true)
    × (reports
          (run_command offline "bb" "settings read"
            (attempt_call offline "bb" (call_facade offline "bb" offline.settings))
            runtime).0
        ≡ true)
unfolding lookup string_eq
commands_report_example =
    commands_report offline "bb" "settings read" lock offline.settings runtime (λ f w. refl)
      (λ serial force w e h. ground arith) (λ f address w e h. ground arith)
      (λ f address w e h. ground arith) (λ f address w e h. ground arith) (ground arith)
