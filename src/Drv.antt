-- ===== src/Drv.antt =====
-- kernel/drv.c, kernel/include/drv.h: the loading of drivers in the order of what they depend on.
pub mod Order
pub mod Names
pub mod Starts
pub mod Returns
pub mod Forever
use minima.Base.{
  ℕ, zero, suc, Bool, true, false, Option, none, some, List, [], ◌∷◌, ◌==◌, if◌then◌else◌, prepend,
}
use minima.Utils.{strcmp}

-- `struct driver`; `probe` is what its function returns.
pub record Driver : Type 0 where
  pub name : List ℕ
  pub probe : ℕ
  pub on_demand : Bool
  pub deps : List (List ℕ)

-- `g_drivers`, `g_drivers_initialized` and `g_drivers_failed`
pub record Drivers : Type 0 where
  pub waiting : List Driver
  pub initialized : List Driver
  pub failed : List Driver

unfoldable pub find : List ℕ → List Driver → Option Driver
unfolding strcmp
find name [] = none
find name (d ∷ l) = if strcmp d.name name == 0 then some d else find name l

-- `find(depname, &g_drivers)->on_demand = 0`, none where it writes through NULL
unfoldable pub want : List ℕ → List Driver → Option (List Driver)
unfolding strcmp
want name [] = none
want name (d ∷ l) =
    let rest = want name l in
    if strcmp d.name name == 0
    then some (record d { on_demand = false } ∷ l)
    else elim rest [ none ↦ none | some l' ↦ some (d ∷ l') ]

-- One round of the loop of `deps_loaded`: what `find` and `want` return, and what the later rounds do.
abbrev pub check :
    Option Driver
    → Option (List Driver)
    → Drivers
    → Option (Bool × Drivers)
    → Option (Bool × Drivers)
check (some d) wanted s rest = rest
check none none s rest = none
check none (some waiting) s rest = some (false, record s { waiting = waiting })

unfoldable pub deps_loaded : List (List ℕ) → Drivers → Option (Bool × Drivers)
unfolding find want
deps_loaded [] s = some (true, s)
deps_loaded (dep ∷ deps) s =
    check (find dep s.initialized) (want dep s.waiting) s (deps_loaded deps s)

-- The body of the first loop of `driver_init`, for a driver that has been taken out of `g_drivers`.
abbrev pub postpone : Driver → Drivers → Drivers
postpone d s = record s { waiting = prepend d s.waiting }

unfoldable pub start : Driver → Drivers → Drivers
start d s =
    if d.probe == 0
    then record s { initialized = prepend d s.initialized }
    else record s { failed = prepend d s.failed }

abbrev pub visit_with : Driver → Drivers → Bool → Option (Bool × Drivers) → Option Drivers
visit_with d s true o = some (postpone d s)
visit_with d s false none = none
visit_with d s false (some (false, s')) = some (postpone d s')
visit_with d s false (some (true, s')) = some (start d s')

unfoldable pub visit : Driver → Drivers → Option Drivers
unfolding deps_loaded start
visit d s = visit_with d s d.on_demand (deps_loaded d.deps s)

-- `driver_init` returns, writes through NULL, or has no rounds left.
pub data Init : Type 0 where
  done : Drivers → Init
  faults : Init
  unfinished : Init

-- The first loop. It always stands at the first driver of `g_drivers`, and what comes next has been
-- read before a postponed driver is put at the end: after the only driver left, the loop ends.
unfoldable pub init_loop : ℕ → Drivers → Init
unfolding visit
init_loop zero s = unfinished
init_loop (suc fuel) s = elim s.waiting [
  | [] ↦ done s
  | d ∷ rest ↦ elim (visit d (record s { waiting = rest })) [
    | none ↦ faults
    | some s' ↦ elim rest [ [] ↦ done s' | e ∷ l ↦ init_loop fuel s' ]
  ]
]

-- The second loop, on the drivers that are left.
unfoldable pub give_up : List Driver → List Driver → List Driver
give_up [] failed = failed
give_up (d ∷ l) failed = give_up l (if d.on_demand then failed else prepend d failed)

unfoldable pub driver_init : ℕ → Drivers → Init
unfolding init_loop give_up
driver_init fuel s = elim (init_loop fuel s) [
  | done s' ↦ done (record s' { waiting = []; failed = give_up s'.waiting s'.failed })
  | faults ↦ faults
  | unfinished ↦ unfinished
]
