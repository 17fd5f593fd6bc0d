-- ===== src/Sync/Sound.antt =====
-- kernel/sync.c: each step of `sem_pend` and of `sem_post` keeps the units of the semaphore.
use mathlib.Core.Path.{subst}
use mathlib.Core.Option.{some-injective}
use minima.Base.{
  ℕ, zero, suc, ◌+◌, ◌≡◌, ◌≢◌, refl, Option, none, some, List, [], ◌∷◌, arith, get_elem?, set, All,
  sym,
}
use minima.Sync.{
  Phase, outside, reading, swapping, giving_up, asleep, inside, raised, seen, picked, removed,
  System, wake_found, woken, Pend, enter, read_value, read_zero, take, miss, give_up, sleep, Post,
  no_waiters, some_waiter, get_first, remove, make_runnable, tries,
}

abbrev pub holds : Phase → ℕ
holds inside = 1
holds outside = 0
holds (reading n) = 0
holds (swapping n val) = 0
holds giving_up = 0
holds asleep = 0
holds raised = 0
holds seen = 0
holds (picked w) = 0
holds (removed w) = 0

-- how many tasks are between `sem_pend` and `sem_post`
abbrev pub holders : List Phase → ℕ
holders [] = 0
holders (p ∷ l) = holds p + holders l

pub holders-set :
    (l : List Phase) (i : ℕ) (p q : Phase)
    → get_elem? l i ≡ some p
    → holders (set l i q) + holds p ≡ holders l + holds q
holders-set [] i p q e = cc
holders-set (r ∷ l) zero p q e = let e' : r ≡ p = some-injective _ _ e in rw e' (omega arith)
holders-set (r ∷ l) (suc i) p q e = omega (arith, holders-set l i p q e)

abbrev pub Positive : Phase → Type 0
Positive (swapping n val) = val ≢ 0
Positive outside = Unit
Positive (reading n) = Unit
Positive giving_up = Unit
Positive asleep = Unit
Positive inside = Unit
Positive raised = Unit
Positive seen = Unit
Positive (picked w) = Unit
Positive (removed w) = Unit

-- Units of the semaphore are never lost or made up, and a value to be exchanged is not 0.
pub record IsSound (units : ℕ) (s : System) : Type 0 where
  pub total : s.sem.count + holders s.tasks ≡ units
  pub positive : All Positive s.tasks

pub All-set :
    (P : Phase → Type 0) (l : List Phase) (i : ℕ) (q : Phase) → All P l → P q → All P (set l i q)
All-set P [] i q h k = tt
All-set P (p ∷ l) zero q h k = (k, h.1)
All-set P (p ∷ l) (suc i) q h k = (h.0, All-set P l i q h.1 k)

All-at :
    (P : Phase → Type 0) (l : List Phase) (i : ℕ) (p : Phase)
    → All P l
    → get_elem? l i ≡ some p
    → P p
All-at P [] i p h e = cc
All-at P (q ∷ l) zero p h e = subst P (some-injective _ _ e) h.0
All-at P (q ∷ l) (suc i) p h e = All-at P l i p h.1 e

-- A step that moves one task from a phase that holds nothing to another, and leaves the count.
module _ (units : ℕ) (s : System) (ws : List ℕ) (sound : IsSound units s) (i : ℕ) (p q : Phase)
    (e : get_elem? s.tasks i ≡ some p) (pos : Positive q) where
  moves :
      holds p ≡ 0
      → holds q ≡ 0
      → IsSound units
          (record { sem = record { count = s.sem.count; waiters = ws }; tasks = set s.tasks i q })
  moves hp hq = record {
    total = omega (arith, sound.total, hp, hq, holders-set s.tasks i p q e);
    positive = All-set Positive s.tasks i q sound.positive pos;
  }

holds-woken : (p : Phase) → holds (woken p) ≡ holds p
holds-woken outside = refl
holds-woken (reading n) = refl
holds-woken (swapping n val) = refl
holds-woken giving_up = refl
holds-woken asleep = refl
holds-woken inside = refl
holds-woken raised = refl
holds-woken seen = refl
holds-woken (picked w) = refl
holds-woken (removed w) = refl

woken-Positive : (p : Phase) → Positive p → Positive (woken p)
woken-Positive outside h = tt
woken-Positive (reading n) h = tt
woken-Positive (swapping n val) h = h
woken-Positive giving_up h = tt
woken-Positive asleep h = tt
woken-Positive inside h = tt
woken-Positive raised h = tt
woken-Positive seen h = tt
woken-Positive (picked w) h = tt
woken-Positive (removed w) h = tt

wake_found-IsSound :
    (units w : ℕ) (s : System) (r : Option Phase)
    → IsSound units s
    → get_elem? s.tasks w ≡ r
    → IsSound units (record s { tasks = wake_found s.tasks w r })
wake_found-IsSound units w s none sound e = sound
wake_found-IsSound units w s (some p) sound e = record {
  total = omega (arith, sound.total, holds-woken p, holders-set s.tasks w p (woken p) e);
  positive =
      All-set Positive s.tasks w (woken p) sound.positive
        (woken-Positive p (All-at Positive s.tasks w p sound.positive e));
}

pub Pend-IsSound : (units : ℕ) {s t : System} → Pend s t → IsSound units s → IsSound units t
Pend-IsSound units (enter i e u) sound =
    subst (IsSound units) (sym u) (moves units _ _ sound i outside (reading tries) e tt refl refl)
Pend-IsSound units (read_value i n e nz u) sound =
    subst (IsSound units) (sym u) (moves units _ _ sound i (reading (suc n)) _ e nz refl refl)
Pend-IsSound units (read_zero i n e z u) sound =
    subst (IsSound units) (sym u)
      (moves units _ _ sound i (reading (suc n)) (reading n) e tt refl refl)
Pend-IsSound units {s} (take i n val e same u) sound =
    let pos = All-at Positive s.tasks i (swapping n val) sound.positive e in
    subst (IsSound units) (sym u) (record {
      total =
          omega (arith, sound.total, same, pos, holders-set s.tasks i (swapping n val) inside e);
      positive = All-set Positive s.tasks i inside sound.positive tt;
    })
Pend-IsSound units (miss i n val e other u) sound =
    subst (IsSound units) (sym u)
      (moves units _ _ sound i (swapping n val) (reading n) e tt refl refl)
Pend-IsSound units (give_up i e u) sound =
    subst (IsSound units) (sym u) (moves units _ _ sound i (reading 0) giving_up e tt refl refl)
Pend-IsSound units (sleep i e u) sound =
    subst (IsSound units) (sym u) (moves units _ _ sound i giving_up asleep e tt refl refl)

pub Post-IsSound : (units : ℕ) {s t : System} → Post s t → IsSound units s → IsSound units t
Post-IsSound units (no_waiters i e z u) sound =
    subst (IsSound units) (sym u) (moves units _ _ sound i raised outside e tt refl refl)
Post-IsSound units (some_waiter i e nz u) sound =
    subst (IsSound units) (sym u) (moves units _ _ sound i raised seen e tt refl refl)
Post-IsSound units (get_first i w e f u) sound =
    subst (IsSound units) (sym u) (moves units _ _ sound i seen (picked w) e tt refl refl)
Post-IsSound units (remove i w e u) sound =
    subst (IsSound units) (sym u) (moves units _ _ sound i (picked w) (removed w) e tt refl refl)
Post-IsSound units {s} (make_runnable i w e u) sound =
    let s' : System = record s { tasks = set s.tasks i outside } in
    subst (IsSound units) (sym u) (
      wake_found-IsSound units w s' (get_elem? s'.tasks w)
        (moves units s s.sem.waiters sound i (removed w) outside e tt refl refl) refl)
