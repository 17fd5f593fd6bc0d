-- ===== src/Timer.antt =====
-- kernel/timer.c: the clock that the timer interrupt drives, and sleeping.
pub mod Uptime
use minima.Base.{
  ℕ, zero, suc, ◌+◌, ◌-◌, true, false, Option, none, some, ltb, leb, if◌then◌else◌, add32,
}
use minima.Sched.{Task, Tasks, ts_sleeping}
use minima.Sched.Stop.{sched, with_task, find_task}

-- `irq0_fractions_prev`, `irq0_fractions` and `system_uptime_ms`
pub record Clock : Type 0 where
  pub irq0_fractions_prev : ℕ
  pub irq0_fractions : ℕ
  pub system_uptime_ms : ℕ

abbrev pub irq0_fractions_per_tick : ℕ
irq0_fractions_per_tick = 654025

-- The clock's part of `do_timer`.
unfoldable pub tick : Clock → Clock
tick c =
    let ms = add32 c.system_uptime_ms 1 in
    let fractions = add32 c.irq0_fractions irq0_fractions_per_tick in
    record {
      irq0_fractions_prev = fractions;
      irq0_fractions = fractions;
      system_uptime_ms = if ltb fractions c.irq0_fractions_prev then add32 ms 1 else ms;
    }

abbrev pub ticks_of : ℕ → Tasks → ℕ
ticks_of id s = elim (find_task id s.runqueue) [ none ↦ 0 | some t ↦ t.ticks ]

-- `do_timer`: the current task loses a tick, and the processor with its last one.
unfoldable pub do_timer : ℕ → ℕ → Clock → Tasks → Option (Clock × Tasks)
do_timer fuel esp c s =
    let c' = tick c in
    let n = ticks_of s.current s - 1 in
    let s' : Tasks = record s {
      ms = c'.system_uptime_ms;
      runqueue = with_task s.current (λ t. record t { ticks = n }) s.runqueue;
    } in
    elim (ltb 0 n) [
      | true ↦ some (c', s')
      | false ↦ elim (sched fuel esp s') [ none ↦ none | some s'' ↦ some (c', s'') ]
    ]

-- `sleep` up to the call of `sched`, and once `sched` has returned.
unfoldable pub sleep : ℕ → ℕ → ℕ → Tasks → Option Tasks
sleep fuel esp ms s = sched fuel esp (record s {
  runqueue =
      with_task s.current
        (λ t. record t {
          state = ts_sleeping;
          sleep_till = add32 s.ms ms;
          cli_depth = t.cli_depth + 1;
        })
        s.runqueue;
})

unfoldable pub sleep_end : Tasks → Tasks
sleep_end s = record s {
  runqueue =
      with_task s.current (λ t. record t { cli_depth = t.cli_depth - 1; sleep_till = 0 })
        s.runqueue;
}
