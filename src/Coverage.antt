-- ===== src/Coverage.antt =====
-- scripts/check_module_coverage.py: the verdict on a coverage report. What is printed is kept in two
-- lists, the latest line first.
pub mod Verdict
use Prim.Native.Char.{Char, code}
use danalock_ble_ha_integrat.Prelude.{
  ℕ, String, ◌<>◌, ◌==◌, ◌||◌, Bool, true, false, Option, none, some, List, [], ◌∷◌, ◌++◌, length,
  ltb, eqb, string_eq, if◌then◌else◌,
}
use danalock_ble_ha_integrat.Prelude.Dict.{Dict, lookup}
use danalock_ble_ha_integrat.Prelude.Errors.{
  Result, ok, raised, Action, pure, raise, ◌>>=◌, ◌>>◌, modify, key_error,
}
use danalock_ble_ha_integrat.Version.{codes}

-- The numbers of a report, Python's floats: `leb` is `<=`, the others are the formats `6.2f`, `.2f` and `g`,
-- and that of a length.
pub record Floats : Type 1 where
  pub Float : Type 0
  pub leb : Float → Float → Bool
  pub padded : Float → String
  pub fixed : Float → String
  pub general : Float → String
  pub count : ℕ → String

-- The entry of a file, as far as it is read.
pub record FileData (Float : Type 0) : Type 0 where
  pub summary : Option (Dict String Float)

-- What became of the report: `FileNotFoundError`, `JSONDecodeError` with its text, or the value of `files`.
pub data Loaded (Float : Type 0) : Type 0 where
  not_found : Loaded Float
  malformed : String → Loaded Float
  loaded : Option (Dict String (FileData Float)) → Loaded Float

-- `_parse_args`
pub record Args (Float : Type 0) : Type 0 where
  pub report : String
  pub minimum : Float

pub record Console : Type 0 where
  pub out : List String
  pub err : List String

abbrev pub print : String → Console → Console
print line c = record c { out = line ∷ c.out }

abbrev pub print_error : String → Console → Console
print_error line c = record c { err = line ∷ c.err }

prepend_to_first : Char → List String → List String
prepend_to_first c [] = String.◌∷◌ c "" ∷ []
prepend_to_first c (part ∷ parts) = String.◌∷◌ c part ∷ parts

-- The parts of a path between its slashes.
unfoldable pub path_parts : String → List String
unfolding prepend_to_first
path_parts String.[] = "" ∷ []
path_parts (String.◌∷◌ c s) =
    let rest = path_parts s in if eqb (code c) b'/' then "" ∷ rest else prepend_to_first c rest

-- The last part that is neither empty nor a dot.
unfoldable pub last_part : List String → String → String
last_part [] name = name
last_part (part ∷ parts) name = last_part parts (if part == "" || part == "." then name else part)

-- `_short_name`
unfoldable pub short_name : String → String
unfolding path_parts last_part
short_name path = last_part (path_parts path) ""

-- The order of strings by code points.
pub is_before : List ℕ → List ℕ → Bool
is_before [] cs = true
is_before (b ∷ bs) [] = false
is_before (b ∷ bs) (c ∷ cs) =
    let later = is_before bs cs in if ltb b c then true else if eqb b c then later else false

unfoldable pub insert_sorted : {A : Type 0} → String → A → Dict String A → Dict String A
unfolding is_before
insert_sorted path data_of [] = (path, data_of) ∷ []
insert_sorted path data_of ((other, data_other) ∷ rest) =
    let later = insert_sorted path data_of rest in
    if is_before (codes path) (codes other)
    then (path, data_of) ∷ (other, data_other) ∷ rest
    else (other, data_other) ∷ later

-- `sorted(files.items())`; the paths of a dict differ, so the data is not compared.
unfoldable pub sorted : {A : Type 0} → Dict String A → Dict String A
unfolding insert_sorted
sorted [] = []
sorted ((path, data_of) ∷ rest) = insert_sorted path data_of (sorted rest)

module _ (f : Floats) where
  abbrev pub Script : Type 0 → Type 0
  Script A = Action Console A

  -- `data["summary"]["percent_covered"]`
  unfoldable pub percent_of : FileData f.Float → Script f.Float
  percent_of data_of = elim data_of.summary [
    | none ↦ raise (key_error "summary")
    | some summary ↦ elim (lookup "percent_covered" summary) [
      | none ↦ raise (key_error "percent_covered")
      | some percent ↦ pure percent
    ]
  ]

  abbrev marker : Bool → String
  marker true = "FAIL"
  marker false = "ok  "

  abbrev pub print_file : f.Float → String → f.Float → Console → Console
  print_file minimum path percent =
      print (marker (f.leb percent minimum) <> " " <> f.padded percent <> "%  " <> short_name path)

  abbrev pub offended :
      f.Float → String → f.Float → List (String × f.Float) → List (String × f.Float)
  offended minimum path percent offenders =
      if f.leb percent minimum then offenders ++ ((short_name path, percent) ∷ []) else offenders

  -- One round of the loop over the files.
  unfoldable pub check_file :
      f.Float
      → String × FileData f.Float
      → List (String × f.Float)
      → Script (List (String × f.Float))
  unfolding percent_of
  check_file minimum (path, data_of) offenders = do
    percent ← percent_of data_of
    modify (print_file minimum path percent)
    pure (offended minimum path percent offenders)

  unfoldable pub check_files :
      f.Float
      → Dict String (FileData f.Float)
      → List (String × f.Float)
      → Script (List (String × f.Float))
  unfolding check_file
  check_files minimum [] offenders = pure offenders
  check_files minimum (file ∷ rest) offenders = do
    noted ← check_file minimum file offenders
    check_files minimum rest noted

  unfoldable pub print_offenders : List (String × f.Float) → Console → Console
  print_offenders [] c = c
  print_offenders ((name, percent) ∷ rest) c =
      print_offenders rest (print_error ("  " <> name <> ": " <> f.fixed percent <> "%") c)

  -- Behind the loop.
  unfoldable pub verdict : f.Float → ℕ → List (String × f.Float) → Script ℕ
  unfolding print_offenders
  verdict minimum files [] = do
    modify
        (print ("\nAll " <> f.count files <> " module(s) are above " <> f.general minimum <> "%."))
    pure 0
  verdict minimum files (offender ∷ offenders) = do
    modify (
        print_error (
          "\n"
          <> f.count (length (offender ∷ offenders))
          <> " module(s) at or below "
          <> f.general minimum
          <> "% (the rule requires strictly above):"))
    modify (print_offenders (offender ∷ offenders))
    pure 1

  unfoldable pub check_report : f.Float → Option (Dict String (FileData f.Float)) → Script ℕ
  unfolding check_files verdict sorted
  check_report minimum none = do modify (print_error "coverage report contains no files"); pure 2
  check_report minimum (some []) = do
    modify (print_error "coverage report contains no files")
    pure 2
  check_report minimum (some (file ∷ files)) = do
    offenders ← check_files minimum (sorted (file ∷ files)) []
    verdict minimum (length (file ∷ files)) offenders

  -- `main`: the exit code.
  unfoldable pub main : Args f.Float → Loaded f.Float → Script ℕ
  unfolding check_report
  main args not_found = do
    modify (print_error ("coverage report not found: " <> args.report))
    pure 2
  main args (malformed text) = do
    modify (print_error ("malformed coverage report " <> args.report <> ": " <> text))
    pure 2
  main args (loaded files) = check_report args.minimum files
