-- ===== src/Timer/Uptime.antt =====
-- kernel/timer.c: what the clock shows after so many interrupts.
use minima.Base.{
  ℕ, zero, suc, ◌+◌, ◌*◌, ◌/◌, ◌%◌, ◌^◌, ◌≡◌, refl, arith, ltb, add32, Bool-cases, inl, inr, ltb→lt,
  not-ltb→le,
}
use minima.Timer.{Clock, tick, irq0_fractions_per_tick}

-- The clock at the start, and after `n` interrupts.
abbrev pub stopped : Clock
stopped = record { irq0_fractions_prev = 0; irq0_fractions = 0; system_uptime_ms = 0 }

abbrev pub after : ℕ → Clock
after zero = stopped
after (suc n) = tick (after n)

-- After n timer interrupts the fractions are n steps of 654025 in 32 bits, and the uptime is n plus
-- the whole milliseconds that n steps make up, in 32 bits.
pub after-tick :
    (n : ℕ)
    → ((after n).irq0_fractions ≡ n * irq0_fractions_per_tick % 2 ^ 32)
      × ((after n).irq0_fractions_prev ≡ (after n).irq0_fractions)
      × ((after n).system_uptime_ms ≡ (n + n * irq0_fractions_per_tick / 2 ^ 32) % 2 ^ 32)
unfolding tick
after-tick zero = (refl, refl, refl)
after-tick (suc n) =
    let (f, p, m) = after-tick n in
    (
      omega (arith, f),
      refl,
      elim (Bool-cases (
          ltb (add32 (after n).irq0_fractions irq0_fractions_per_tick)
            (after n).irq0_fractions_prev)) [
              | inl e ↦ rw e (omega (arith, f, p, m, ltb→lt _ _ e))
              | inr e ↦ rw e (omega (arith, f, p, m, not-ltb→le _ _ e))
            ],
    )
