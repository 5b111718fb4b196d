-- ===== src/Select/Shared.antt =====
-- custom_components/danalock_ble/select.py: `_PENDING_READS`, the one settings read that the selects
-- of a device share.
use mathlib.Core.Option.{some-injective}
use danalock_ble_ha_integrat.Prelude.{
  ℕ, suc, ◌<◌, String, Option, none, some, [], ◌≡◌, ◌==◌, refl, arith, sym, subst, ◌∙◌, string_eq,
  nat_eq, inl, inr, Bool-cases,
}
use danalock_ble_ha_integrat.Prelude.Dict.{Dict, lookup, insert, erase, lookup-insert, lookup-erase}

-- `pending` is `_PENDING_READS`, with the number of the task. `tasks` are the read tasks whose callback
-- has not run yet, each with the serial of its device; `fresh` numbers the next task.
pub record Reads : Type 0 where
  pub pending : Dict String ℕ
  pub tasks : Dict ℕ String
  pub fresh : ℕ

abbrev pub no_reads : Reads
no_reads = record { pending = []; tasks = []; fresh = 0 }

start_read : String → Reads → ℕ × Reads
start_read serial s = (
  s.fresh,
  record {
    pending = insert serial s.fresh s.pending;
    tasks = insert s.fresh serial s.tasks;
    fresh = suc s.fresh;
  },
)

-- `_async_ensure_settings_read` up to the await, with the task that it awaits.
unfoldable pub ensure_settings_read : String → Reads → ℕ × Reads
unfolding start_read
ensure_settings_read serial s = elim (lookup serial s.pending) [
  | none ↦ start_read serial s
  | some task ↦ (task, s)
]

-- The callback of a task that is done.
unfoldable pub read_done : ℕ → String → Reads → Reads
read_done task serial s = record s { tasks = erase task s.tasks; pending = erase serial s.pending }

-- Selects are added, and reads end, in any order.
pub data Step (s t : Reads) : Type 0 where
  added : (serial : String) → t ≡ (ensure_settings_read serial s).1 → Step s t
  done :
      (task : ℕ) (serial : String)
      → lookup task s.tasks ≡ some serial
      → t ≡ read_done task serial s
      → Step s t

pub data Reach : Reads → Type 0 where
  empty : Reach no_reads
  next : {s t : Reads} → Reach s → Step s t → Reach t

-- Every task that is under way is the one that the selects of its device find, and no task has the
-- number of the next one.
IsShared : Reads → Type 0
IsShared s =
    ((task : ℕ) (serial : String)
      → lookup task s.tasks ≡ some serial
      → (lookup serial s.pending ≡ some task) × (task < s.fresh))

start-IsShared :
    (serial : String) (s : Reads)
    → lookup serial s.pending ≡ none
    → IsShared s
    → IsShared (start_read serial s).1
unfolding IsShared start_read
start-IsShared serial s free shared = λ j other h. elim (Bool-cases (j == s.fresh)) [
  | inl same ↦ (
    ground (
      arith,
      h,
      same,
      lookup-insert j s.fresh serial s.tasks,
      lookup-insert other serial s.fresh s.pending,
    ),
    ground (arith, same),
  )
  | inr differ ↦
      let older : lookup j s.tasks ≡ some other =
        ground (arith, h, differ, lookup-insert j s.fresh serial s.tasks) in
      let (waits, below) = shared j other older in
      (
        ground (arith, waits, free, lookup-insert other serial s.fresh s.pending),
        omega (arith, below),
      )
]

ensure-IsShared :
    (serial : String) (s : Reads) → IsShared s → IsShared (ensure_settings_read serial s).1
unfolding ensure_settings_read
ensure-IsShared serial s shared = go (lookup serial s.pending) refl
  where
    go :
        (found : Option ℕ)
        → lookup serial s.pending ≡ found
        → IsShared
            (elim found as (λ _. ℕ × Reads) [
              | none ↦ start_read serial s
              | some task ↦ (task, s)
            ]).1
    go none free = start-IsShared serial s free shared
    go (some task) found = shared

done-IsShared :
    (task : ℕ) (serial : String) (s : Reads)
    → lookup task s.tasks ≡ some serial
    → IsShared s
    → IsShared (read_done task serial s)
unfolding IsShared read_done
done-IsShared task serial s found shared = λ j other h.
    let older : lookup j s.tasks ≡ some other = ground (arith, h, lookup-erase j task s.tasks) in
    let (waits, below) = shared j other older in
    (
      ground (
        arith,
        h,
        waits,
        (shared task serial found).0,
        lookup-erase j task s.tasks,
        lookup-erase other serial s.pending,
      ),
      below,
    )

Reach-IsShared : {s : Reads} → Reach s → IsShared s
unfolding IsShared lookup
Reach-IsShared empty = λ task serial h. cc
Reach-IsShared (next {s} r (added serial h)) =
    subst IsShared (sym h) (ensure-IsShared serial s (Reach-IsShared r))
Reach-IsShared (next {s} r (done task serial found h)) =
    subst IsShared (sym h) (done-IsShared task serial s found (Reach-IsShared r))

-- However the selects of all devices are added and their reads end: two reads of one device are never
-- under way at once, and a select that is added while one is under way awaits that one.
pub Reach-one_read :
    {s : Reads} (task other : ℕ) (serial : String)
    → Reach s
    → lookup task s.tasks ≡ some serial
    → lookup other s.tasks ≡ some serial
    → (task ≡ other) × (ensure_settings_read serial s ≡ (task, s))
unfolding IsShared ensure_settings_read
Reach-one_read {s} task other serial r runs also =
    let waits = (Reach-IsShared r task serial runs).0 in
    let too = (Reach-IsShared r other serial also).0 in
    (some-injective task other (sym waits ∙ too), rw (ensure_settings_read, waits) refl)
