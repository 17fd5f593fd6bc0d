-- ===== src/Drv/Forever.antt =====
-- kernel/drv.c: with two drivers that nothing wants, the first loop of driver_init does not end.
use minima.Base.{
  ℕ, zero, suc, ◌≤◌, ◌≡◌, refl, true, List, [], ◌∷◌, length, arith, prepend, All, All-prepend,
  length-prepend, ap, ◌∙◌, some, none,
}
use minima.Drv.Order.{state}
use minima.Drv.{Driver, Drivers, Init, postpone, visit, init_loop, driver_init, give_up}

visit_on_demand : (d : Driver) (s : Drivers) → d.on_demand ≡ true → visit d s ≡ some (postpone d s)
unfolding visit
visit_on_demand d s e = rw e refl

loop-unfinished :
    (fuel : ℕ) (l i f : List Driver)
    → All (λ d. d.on_demand ≡ true) l
    → 2 ≤ length l
    → init_loop fuel (state l i f) ≡ Init.unfinished
unfolding init_loop
loop-unfinished zero l i f all two = refl
loop-unfinished (suc fuel) [] i f all two = absurd (omega arith)
loop-unfinished (suc fuel) (d ∷ []) i f all two = absurd (omega arith)
loop-unfinished (suc fuel) (d ∷ e ∷ l) i f all two =
    ap (λ o. elim o [ none ↦ Init.faults | some s' ↦ init_loop fuel s' ])
      (visit_on_demand d (state (e ∷ l) i f) all.0)
    ∙ loop-unfinished fuel (prepend d (e ∷ l)) i f
        (All-prepend (λ (x : Driver). x.on_demand ≡ true) d (e ∷ l) all.0 all.1)
        (omega (arith, length-prepend d (e ∷ l)))

-- When two or more drivers are waiting and all that wait are on demand, driver_init never returns,
-- however many rounds it is given.
pub driver_init-unfinished :
    (fuel : ℕ) (s : Drivers)
    → All (λ d. d.on_demand ≡ true) s.waiting
    → 2 ≤ length s.waiting
    → driver_init fuel s ≡ Init.unfinished
unfolding driver_init
driver_init-unfinished fuel s all two =
    ap
      (λ r. elim r [
        | Init.done s' ↦
            Init.done (record s' { waiting = []; failed = give_up s'.waiting s'.failed })
        | Init.faults ↦ Init.faults
        | Init.unfinished ↦ Init.unfinished
      ])
      (loop-unfinished fuel s.waiting s.initialized s.failed all two)
