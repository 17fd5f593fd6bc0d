-- ===== src/Tests/Semaphores.antt =====
-- kernel/sync.c at concrete inputs: three tasks and a semaphore that starts at 1.
use minima.Base.{ℕ, ◌+◌, ◌≡◌, refl, [], ◌∷◌, arith}
use minima.Sync.{
  outside, asleep, inside, reading, tries, System, raise_count, remove_waiter, Reach, enter,
  read_value, read_zero, take, give_up, sleep, some_waiter, get_first, remove, make_runnable, begun,
  pend_step, post_step, give,
}
use minima.Sync.Sound.{holders}
use minima.Sync.Exclusion.{start, Reach-units, Reach-exclusion}

abbrev locked : System
locked = record {
  sem = record { count = 0; waiters = [] };
  tasks = outside ∷ inside ∷ outside ∷ [];
}

locked-Reach : Reach (start 1 3) 0 0 locked
locked-Reach =
    pend_step
      (pend_step (pend_step begun (enter 1 refl refl)) (read_value 1 1 refl (omega arith) refl))
      (take 1 1 1 refl refl refl)

-- The first task sleeps.
abbrev waited : System
waited = record {
  sem = record { count = 0; waiters = 0 ∷ [] };
  tasks = asleep ∷ inside ∷ outside ∷ [];
}

waited-Reach : Reach (start 1 3) 0 0 waited
waited-Reach =
    pend_step
      (pend_step
        (pend_step
          (pend_step (pend_step locked-Reach (enter 0 refl refl)) (read_zero 0 1 refl refl refl))
          (read_zero 0 0 refl refl refl))
        (give_up 0 refl refl))
      (sleep 0 refl refl)

-- The third task posts without being inside, and wakes the first.
abbrev given : System
given = record {
  sem = record { count = 1; waiters = [] };
  tasks = reading tries ∷ inside ∷ outside ∷ [];
}

given-Reach : Reach (start 1 3) 1 0 given
unfolding raise_count remove_waiter
given-Reach =
    post_step
      (post_step
        (post_step (post_step (give 2 waited-Reach refl refl) (some_waiter 2 refl (λ e. cc) refl))
          (get_first 2 0 refl refl refl))
        (remove 2 0 refl refl))
      (make_runnable 2 0 refl refl)

Reach-units_example : given.sem.count + holders given.tasks + 0 ≡ 1 + 1
Reach-units_example = Reach-units 1 3 given-Reach

Reach-exclusion_example : ◌≡◌ {A = ℕ} 1 1
Reach-exclusion_example = Reach-exclusion 3 1 1 0 waited-Reach refl refl
