-- ===== src/Sync/Exclusion.antt =====
-- kernel/sync.c: however the tasks are interleaved, a semaphore lets in no more than its count.
use mathlib.Core.Path.{subst}
use mathlib.Core.Option.{some-injective}
use native.Mathlib.Decide.{ℕ_discrete}
use minima.Base.{
  ℕ, zero, suc, ◌+◌, ◌-◌, ◌≤◌, ◌≡◌, ◌≢◌, refl, ap, some, List, [], ◌∷◌, arith, get_elem?, All,
  replicate, sym,
}
use minima.Sync.{
  Phase, outside, inside, raised, System, sem_init, raise_count, Reach, begun, pend_step, post_step,
  give_back, give, keep,
}
use minima.Sync.Sound.{holders, holders-set, Positive, IsSound, All-set, Pend-IsSound, Post-IsSound}

-- At the start the semaphore has its value and no task uses it.
abbrev pub start : ℕ → ℕ → System
start value n = record { sem = sem_init value; tasks = replicate n outside }

start-IsSound : (value n : ℕ) → IsSound value (start value n)
start-IsSound value n = record { total = omega (arith, idle n); positive = rest n }
  where
    idle : (k : ℕ) → holders (replicate k outside) ≡ 0
    idle zero = refl
    idle (suc k) = omega (arith, idle k)

    rest : (k : ℕ) → All Positive (replicate k outside)
    rest zero = tt
    rest (suc k) = (tt, rest k)

-- What the tasks have kept is gone, and what others have given is there.
Reach-IsSound :
    (value n : ℕ) {given kept : ℕ} {t : System}
    → Reach (start value n) given kept t
    → (units : ℕ) × (units + kept ≡ value + given) × IsSound units t
unfolding raise_count
Reach-IsSound value n begun = (value, refl, start-IsSound value n)
Reach-IsSound value n (pend_step r st) =
    let (units, e, sound) = Reach-IsSound value n r in (units, e, Pend-IsSound units st sound)
Reach-IsSound value n (post_step r st) =
    let (units, e, sound) = Reach-IsSound value n r in (units, e, Post-IsSound units st sound)
Reach-IsSound value n (give_back {t = t} i r at u) =
    let (units, e, sound) = Reach-IsSound value n r in
    (
      units,
      e,
      subst (IsSound units) (sym u) (record {
        total = omega (arith, sound.total, holders-set t.tasks i inside raised at);
        positive = All-set Positive t.tasks i raised sound.positive tt;
      }),
    )
Reach-IsSound value n (give {t = t} i r at u) =
    let (units, e, sound) = Reach-IsSound value n r in
    (
      suc units,
      omega (arith, e),
      subst (IsSound (suc units)) (sym u) (record {
        total = omega (arith, sound.total, holders-set t.tasks i outside raised at);
        positive = All-set Positive t.tasks i raised sound.positive tt;
      }),
    )
Reach-IsSound value n (keep {t = t} i r at u) =
    let (units, e, sound) = Reach-IsSound value n r in
    let held = holders-set t.tasks i inside outside at in
    (
      units - 1,
      omega (arith, e, sound.total, held),
      subst (IsSound _) (sym u) (record {
        total = omega (arith, sound.total, held);
        positive = All-set Positive t.tasks i outside sound.positive tt;
      }),
    )

-- As long as no sem_post takes the first of a list of waiters that another one has emptied since
-- its test, however n tasks interleave the steps of sem_pend and of sem_post on a semaphore that
-- starts at a value, the count, the number of tasks inside and the number of those that have gone
-- on without a post add up to that value and the number of posts by tasks that were not inside.
pub Reach-units :
    (value n : ℕ) {given kept : ℕ} {t : System}
    → Reach (start value n) given kept t
    → t.sem.count + holders t.tasks + kept ≡ value + given
Reach-units value n r =
    let (units, e, sound) = Reach-IsSound value n r in omega (arith, e, sound.total)

-- The tasks that are inside, as a number each.
abbrev pub IsInside : List Phase → ℕ → Type 0
IsInside l i = get_elem? l i ≡ some inside

holders-pos : (l : List Phase) (i : ℕ) → IsInside l i → 1 ≤ holders l
holders-pos [] i e = cc
holders-pos (p ∷ l) zero e = let e' : p ≡ inside = some-injective _ _ e in rw e' (omega arith)
holders-pos (p ∷ l) (suc i) e = omega (arith, holders-pos l i e)

holders_two : (l : List Phase) (i j : ℕ) → i ≢ j → IsInside l i → IsInside l j → 2 ≤ holders l
holders_two [] i j ne e f = cc
holders_two (p ∷ l) zero zero ne e f = absurd (ne refl)
holders_two (p ∷ l) zero (suc j) ne e f =
    let e' : p ≡ inside = some-injective _ _ e in rw e' (omega (arith, holders-pos l j f))
holders_two (p ∷ l) (suc i) zero ne e f =
    let e' : p ≡ inside = some-injective _ _ f in rw e' (omega (arith, holders-pos l i e))
holders_two (p ∷ l) (suc i) (suc j) ne e f =
    omega (arith, holders_two l i j (λ same. ne (ap suc same)) e f)

-- As long as no sem_post takes the first of a list of waiters that another one has emptied since
-- its test, with a semaphore that starts at 1 and on which no task posts that is not inside, two
-- tasks that are inside at the same time are the same task.
pub Reach-exclusion :
    (n i j kept : ℕ) {t : System}
    → Reach (start 1 n) 0 kept t
    → IsInside t.tasks i
    → IsInside t.tasks j
    → i ≡ j
Reach-exclusion n i j kept {t} r e f = elim (ℕ_discrete i j) [
  | yes same ↦ same
  | no apart ↦ absurd (omega (arith, Reach-units 1 n r, holders_two t.tasks i j apart e f))
]
