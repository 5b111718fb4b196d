-- ===== src/Tests/Coverage.antt =====
-- The coverage check on small reports, with whole percentages.
use danalock_ble_ha_integrat.Prelude.{
  ℕ, String, leb, some, none, [], ◌∷◌, ◌≡◌, refl, string_eq, All,
}
use danalock_ble_ha_integrat.Prelude.Dict.{Dict, lookup}
use danalock_ble_ha_integrat.Prelude.Errors.{ok, raised, key_error}
use danalock_ble_ha_integrat.Coverage.{
  Floats, FileData, loaded, not_found, Args, Console, short_name, sorted, insert_sorted, percent_of,
  check_file, check_files, verdict, check_report, main,
}
use danalock_ble_ha_integrat.Coverage.Verdict.{IsMeasured, Verdict, main-Verdict}

abbrev numbers : Floats
numbers = record {
  Float = ℕ;
  leb = leb;
  padded = λ n. "95.00";
  fixed = λ n. "95.00";
  general = λ n. "95";
  count = λ n. "1";
}

abbrev data_of : ℕ → FileData ℕ
data_of percent = record { summary = some (("percent_covered", percent) ∷ []) }

-- One module is at the floor.
abbrev report : Dict String (FileData ℕ)
report =
    ("custom_components/danalock_ble/lock.py", data_of 97)
    ∷ ("custom_components/danalock_ble/const.py", data_of 95)
    ∷ []

abbrev args : Args ℕ
args = record { report = "coverage.json"; minimum = 95 }

abbrev console : Console
console = record { out = []; err = [] }

main_tests :
    let (code, c) = main numbers args (loaded (some report)) console in
    (code ≡ ok 1)
    × (c.out ≡ "ok   95.00%  lock.py" ∷ "FAIL 95.00%  const.py" ∷ [])
    × (c.err
        ≡ "  const.py: 95.00%" ∷ "\n1 module(s) at or below 95% (the rule requires strictly above):"
          ∷ [])
    × ((main numbers args not_found console).0 ≡ ok 2)
    × ((main numbers args (loaded (some (("a.py", record { summary = none }) ∷ []))) console).0
        ≡ raised (key_error "summary"))
    × (short_name "a/b/./c/" ≡ "c")
unfolding main check_report check_files check_file percent_of sorted insert_sorted verdict
    short_name lookup string_eq
main_tests = (refl, refl, refl, refl, refl, refl)

report-IsMeasured : All (IsMeasured numbers 95) report
unfolding lookup string_eq
report-IsMeasured = (λ h. cc, (λ h. cc, tt))

main-Verdict_example :
    Verdict numbers 95 (loaded (some report)) (main numbers args (loaded (some report)) console).0
main-Verdict_example = main-Verdict numbers args (loaded (some report)) console report-IsMeasured
