-- ===== src/Sync/Wakeup.antt =====
-- kernel/sync.c, `sem_pend` against `sem_post`: the check of the count and the sleep are two steps.
use mathlib.Core.Path.{◌≡◌}
use minima.Base.{
  ℕ, ◌+◌, ◌≢◌, ◌∙◌, sym, refl, some, [], ◌∷◌, ◌<◌, arith, get_elem?, set, get_elem?-set_ne,
  get_elem?-set_self, get_elem?-lt, List,
}
use minima.Sync.{
  Phase, outside, giving_up, asleep, inside, raised, System, raise_count, sleep, no_waiters, Reach,
  begun, pend_step, post_step, give_back,
}

-- What the steps of `sem_pend_misses_wakeup` lead to.
abbrev posted : List Phase → ℕ → List Phase
posted tasks j = set (set tasks j raised) j outside

abbrev missed : System → ℕ → ℕ → System
missed s i j = record {
  sem = record { count = s.sem.count + 1; waiters = i ∷ [] };
  tasks = set (posted s.tasks j) i asleep;
}

-- Where one task has found the count at 0 and another one is inside, while no task waits, the steps
-- lead to a state in which the first sleeps in the list of waiters although the count is not 0.
sem_pend_misses_wakeup :
    (s : System) (i j : ℕ)
    → i ≢ j
    → get_elem? s.tasks i ≡ some giving_up
    → get_elem? s.tasks j ≡ some inside
    → s.sem.waiters ≡ []
    → Reach s 0 0 (missed s i j)
      × (get_elem? (missed s i j).tasks i ≡ some asleep)
      × (0 < (missed s i j).sem.count)
unfolding raise_count
sem_pend_misses_wakeup s i j ne gives holds none_wait =
    let apart : j ≢ i = λ e. ne (sym e) in
    let before : get_elem? (posted s.tasks j) i ≡ some giving_up =
      get_elem?-set_ne (set s.tasks j raised) j i outside apart
      ∙ get_elem?-set_ne s.tasks j i raised apart
      ∙ gives in
    let there : get_elem? (set s.tasks j raised) j ≡ some raised =
      get_elem?-set_self s.tasks j raised (get_elem?-lt s.tasks j inside holds) in
    (
      pend_step (post_step (give_back j begun holds refl) (no_waiters j there none_wait refl))
          (sleep i before (rw none_wait refl)),
      get_elem?-set_self (posted s.tasks j) i asleep
          (get_elem?-lt (posted s.tasks j) i giving_up before),
      omega arith,
    )
