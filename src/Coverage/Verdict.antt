-- ===== src/Coverage/Verdict.antt =====
-- The exit code of the coverage check, against the files of the report in any order.
use danalock_ble_ha_integrat.Prelude.{
  ℕ, String, false, Option, none, some, List, [], ◌∷◌, ◌++◌, ◌≡◌, ◌≢◌, ◌⊎◌, inl, inr, refl, arith,
  ap, sym, ◌∙◌, All, length, Bool-cases, Option-cases, if◌then◌else◌, string_eq,
}
use danalock_ble_ha_integrat.Prelude.Dict.{Dict, lookup}
use danalock_ble_ha_integrat.Prelude.Errors.{Result, ok, >>=-ok}
use danalock_ble_ha_integrat.Version.{codes}
use danalock_ble_ha_integrat.Coverage.{
  Floats, FileData, Loaded, not_found, malformed, loaded, Args, Console, short_name, insert_sorted,
  sorted, is_before, percent_of, offended, print_file, check_file, check_files, verdict,
  check_report, main,
}

append-nil : {A : Type 0} (xs : List A) → xs ++ [] ≡ xs
append-nil [] = refl
append-nil (x ∷ xs) = ap (λ ys. x ∷ ys) (append-nil xs)

append_assoc : {A : Type 0} (xs ys zs : List A) → (xs ++ ys) ++ zs ≡ xs ++ (ys ++ zs)
append_assoc [] ys zs = refl
append_assoc (x ∷ xs) ys zs = ap (λ ws. x ∷ ws) (append_assoc xs ys zs)

module _ {A : Type 0} (P : String × A → Type 0) where
  insert_sorted-All :
      (path : String) (a : A) (d : Dict String A)
      → (All P (insert_sorted path a d) → P (path, a) × All P d)
        × (P (path, a) → All P d → All P (insert_sorted path a d))
  unfolding insert_sorted
  insert_sorted-All path a [] = (λ h. h, λ p h. (p, h))
  insert_sorted-All path a ((other, b) ∷ rest) =
      let ih = insert_sorted-All path a rest in
      elim (Bool-cases (is_before (codes path) (codes other))) [
        | inl first ↦ rw first (λ h. h, λ p h. (p, h))
        | inr later ↦ rw later (λ h. ((ih.0 h.1).0, (h.0, (ih.0 h.1).1)), λ p h. (h.0, ih.1 p h.1))
      ]

  sorted-All : (d : Dict String A) → (All P (sorted d) → All P d) × (All P d → All P (sorted d))
  unfolding sorted
  sorted-All [] = (λ h. h, λ h. h)
  sorted-All ((path, a) ∷ rest) =
      let placed = insert_sorted-All path a (sorted rest) in
      let ih = sorted-All rest in
      (λ h. ((placed.0 h).0, ih.0 (placed.0 h).1), λ h. placed.1 h.0 (ih.1 h.1))

module _ (f : Floats) (minimum : f.Float) where
  -- The percentage of a file, if the report has it.
  abbrev pub measured : FileData f.Float → Option f.Float
  measured d = elim d.summary [ none ↦ none | some summary ↦ lookup "percent_covered" summary ]

  abbrev pub IsMeasured : String × FileData f.Float → Type 0
  IsMeasured file = measured file.1 ≢ none

  -- The percentage is not at or below the floor.
  abbrev pub IsAbove : String × FileData f.Float → Type 0
  IsAbove file =
      (percent : f.Float) × (measured file.1 ≡ some percent) × (f.leb percent minimum ≡ false)

  offending : Dict String (FileData f.Float) → List (String × f.Float)
  offending [] = []
  offending ((path, d) ∷ rest) = elim (measured d) [
    | none ↦ offending rest
    | some percent ↦
        if f.leb percent minimum
        then (short_name path, percent) ∷ offending rest
        else offending rest
  ]

  check_file_lem :
      (path : String) (d : FileData f.Float) (percent : f.Float)
      (offenders : List (String × f.Float)) (c : Console)
      → measured d ≡ some percent
      → check_file f minimum (path, d) offenders c
        ≡ (ok (offended f minimum path percent offenders), print_file f minimum path percent c)
  unfolding check_file percent_of
  check_file_lem path d percent offenders c found = ground (arith, found)

  check_files_lem :
      (files : Dict String (FileData f.Float)) (offenders : List (String × f.Float)) (c : Console)
      → All IsMeasured files
      → (check_files f minimum files offenders c).0 ≡ ok (offenders ++ offending files)
  unfolding check_files offending
  check_files_lem [] offenders c h = ap ok (sym (append-nil offenders))
  check_files_lem ((path, d) ∷ rest) offenders c h = elim (Option-cases (measured d)) [
    | inl missing ↦ absurd (h.0 missing)
    | inr (percent, found) ↦
        let noted = offended f minimum path percent offenders in
        let printed = print_file f minimum path percent c in
        ap (λ x. x.0)
          (>>=-ok (check_file f minimum (path, d) offenders) (check_files f minimum rest) c noted
            printed (check_file_lem path d percent offenders c found))
        ∙ check_files_lem rest noted printed h.1
        ∙ ap ok (listed percent found)
  ]
    where
      listed :
          (percent : f.Float)
          → measured d ≡ some percent
          → offended f minimum path percent offenders ++ offending rest
            ≡ offenders ++ offending ((path, d) ∷ rest)
      listed percent found = elim (Bool-cases (f.leb percent minimum)) [
        | inl low ↦
            rw (offending, found, low)
              (append_assoc offenders ((short_name path, percent) ∷ []) (offending rest))
        | inr high ↦ rw (offending, found, high) refl
      ]

  -- No file offends exactly if all are above the floor.
  offending-IsAbove :
      (files : Dict String (FileData f.Float))
      → All IsMeasured files
      → ((offending files ≡ []) × All IsAbove files)
        ⊎ ((offending files ≢ []) × ¬ All IsAbove files)
  unfolding offending
  offending-IsAbove [] h = inl (refl, tt)
  offending-IsAbove ((path, d) ∷ rest) h = elim (Option-cases (measured d)) [
    | inl missing ↦ absurd (h.0 missing)
    | inr (percent, found) ↦ elim (Bool-cases (f.leb percent minimum)) [
      | inl low ↦
          inr
            (rw (offending, found, low) (λ e. cc), λ above. let (other, same, high) = above.0 in cc)
      | inr high ↦ elim (offending-IsAbove rest h.1) [
        | inl (quiet, above) ↦
            inl (rw (offending, found, high) quiet, ((percent, found, high), above))
        | inr (loud, some_low) ↦ inr (rw (offending, found, high) loud, λ above. some_low above.1)
      ]
    ]
  ]

  -- The exit code that a report asks for: 0 if it has files and all of them are above the floor, 1 if it
  -- has files and some are not, else 2.
  abbrev pub Verdict : Loaded f.Float → Result ℕ → Type 0
  Verdict not_found code = code ≡ ok 2
  Verdict (malformed text) code = code ≡ ok 2
  Verdict (loaded none) code = code ≡ ok 2
  Verdict (loaded (some [])) code = code ≡ ok 2
  Verdict (loaded (some (file ∷ files))) code =
      ((code ≡ ok 0) × All IsAbove (file ∷ files)) ⊎ ((code ≡ ok 1) × ¬ All IsAbove (file ∷ files))

  abbrev pub AreMeasured : Loaded f.Float → Type 0
  AreMeasured (loaded (some files)) = All IsMeasured files
  AreMeasured _ = Unit

  verdict_code :
      (count : ℕ) (offenders : List (String × f.Float)) (c : Console)
      → ((offenders ≡ []) × ((verdict f minimum count offenders c).0 ≡ ok 0))
        ⊎ ((offenders ≢ []) × ((verdict f minimum count offenders c).0 ≡ ok 1))
  unfolding verdict
  verdict_code count [] c = inl (refl, refl)
  verdict_code count (offender ∷ offenders) c = inr (λ e. cc, refl)

  report-Verdict :
      (file : String × FileData f.Float) (files : Dict String (FileData f.Float)) (c : Console)
      → All IsMeasured (file ∷ files)
      → Verdict (loaded (some (file ∷ files))) (check_report f minimum (some (file ∷ files)) c).0
  unfolding check_report
  report-Verdict file files c h =
      let ordered = sorted (file ∷ files) in
      let ordered-IsMeasured = (sorted-All IsMeasured (file ∷ files)).1 h in
      let after = (check_files f minimum ordered [] c).1 in
      let same =
        ap (λ x. x.0)
          (>>=-ok (check_files f minimum ordered []) (verdict f minimum (length (file ∷ files))) c
            (offending ordered) after
            (ap (λ r. (r, after)) (check_files_lem ordered [] c ordered-IsMeasured))) in
      let back = (sorted-All IsAbove (file ∷ files)) in
      elim (verdict_code (length (file ∷ files)) (offending ordered) after) [
        | inl (quiet, zero) ↦ elim (offending-IsAbove ordered ordered-IsMeasured) [
          | inl (_, above) ↦ inl (same ∙ zero, back.0 above)
          | inr (loud, _) ↦ absurd (loud quiet)
        ]
        | inr (loud, one) ↦ elim (offending-IsAbove ordered ordered-IsMeasured) [
          | inl (quiet, _) ↦ absurd (loud quiet)
          | inr (_, low) ↦ inr (same ∙ one, λ above. low (back.1 above))
        ]
      ]

-- If every file of the report has its percentage, the exit code is 0 exactly if the report was read, has
-- files and the percentage of each is strictly above the floor, 1 if it has files and one is not, and
-- 2 for a missing, malformed or empty report, whatever the order of the files.
pub main-Verdict :
    (f : Floats) (args : Args f.Float) (l : Loaded f.Float) (c : Console)
    → AreMeasured f args.minimum l
    → Verdict f args.minimum l (main f args l c).0
unfolding main check_report
main-Verdict f args not_found c h = refl
main-Verdict f args (malformed text) c h = refl
main-Verdict f args (loaded none) c h = refl
main-Verdict f args (loaded (some [])) c h = refl
main-Verdict f args (loaded (some (file ∷ files))) c h =
    report-Verdict f args.minimum file files c h
