-- ===== src/Tests/Drivers.antt =====
-- kernel/drv.c, kernel/idt.c, kernel/drivers/kbd.c at concrete inputs: a driver `b` that depends on a
-- driver `a` and is registered before it, and a keyboard whose buffer holds two bytes.
use minima.Base.{
  ℕ, ◌≡◌, ◌≢◌, refl, inl, inr, true, false, none, List, [], ◌∷◌, ◌++◌, arith, length, some,
}
use minima.Drv.{Driver, Drivers, Init, driver_init}
use minima.Drv.Order.{HasName, DepsFirst}
use minima.Drv.Returns.{driver_init-Started}
use minima.Drv.Forever.{driver_init-unfinished}
use minima.Idt.{Idt, calls, attached, eexist, attach_irq, do_irq, counted}
use minima.Idt.Handlers.{IsReal, asks, ends, attach_irq-do_irq}
use minima.Kbd.{Kbd}

abbrev driver_a : Driver
driver_a = record { name = 97 ∷ []; probe = 0; on_demand = false; deps = [] }

abbrev driver_b : Driver
driver_b = record { name = 98 ∷ []; probe = 0; on_demand = false; deps = (97 ∷ []) ∷ [] }

abbrev drivers : List Driver
drivers = driver_b ∷ driver_a ∷ []

abbrev rank : List ℕ → ℕ
rank [] = 0
rank (c ∷ l) = c

driver_init-Started_example :
    (s : Drivers) × (driver_init 7 (record { waiting = drivers; initialized = []; failed = [] })
      ≡ Init.done s)
    × DepsFirst [] s.initialized
    × ((n : List ℕ) → HasName n drivers → HasName n s.initialized)
    × (length s.initialized ≡ 2)
    × (s.failed ≡ [])
driver_init-Started_example =
    driver_init-Started rank drivers 7
      (
        (((omega arith, omega arith), tt), (((omega arith, omega arith), tt), tt)),
        ((((omega arith, omega arith), tt), tt), tt),
      )
      (refl, (refl, tt)) (refl, (refl, tt)) (((inr (inl refl), omega arith), tt), (tt, tt))
      (omega arith)

abbrev idle_drivers : Drivers
idle_drivers = record {
  waiting = record driver_a { on_demand = true } ∷ record driver_a { on_demand = true } ∷ [];
  initialized = [];
  failed = [];
}

driver_init-unfinished_example : driver_init 100 idle_drivers ≡ Init.unfinished
driver_init-unfinished_example =
    driver_init-unfinished 100 idle_drivers (refl, (refl, tt)) (omega arith)

abbrev table : Idt
table = record {
  irq_handlers = λ irq. none;
  idt_entries = λ irq. record {
    offset_lowerbits = 0;
    selector = 8;
    zeroed = 0;
    type_attr = 142;
    offset_higherbits = 0;
  };
  irq_counts = λ irq. 0;
}

real : IsReal 47 32768
real = (λ e. absurd (omega (arith, e)), λ e. refl)

gate : ◌≢◌ {A = ℕ} 142 0
gate e = omega (arith, e)

handler : ◌≢◌ {A = ℕ} 4096 0
handler e = omega (arith, e)

other_handler : ◌≢◌ {A = ℕ} 4096 64
other_handler e = omega (arith, e)

attach_irq-do_irq_example :
    (s' : Idt) × (attach_irq 64 table 47 4096 (97 ∷ []) ≡ attached s')
    × (do_irq s' 47 32768 ≡ (some (asks 47 ++ ends 47 ++ (calls 4096 ∷ [])), counted s' 47))
    × ((other : ℕ) → other ≢ 47 → s'.irq_handlers other ≡ none)
    × (attach_irq 64 s' 47 4100 [] ≡ eexist)
attach_irq-do_irq_example =
    attach_irq-do_irq 64 47 32768 4096 4100 (97 ∷ []) [] table (omega arith) gate refl handler
      other_handler real

abbrev kbd : Kbd
kbd = record {
  modifiers = 0 ∷ 1 ∷ 0 ∷ 0 ∷ 0 ∷ 0 ∷ 0 ∷ [];
  rb = record {
    queue = 1;
    n_free = 2;
    n_used = 2;
    buf = 7 ∷ 8 ∷ 9 ∷ 6 ∷ [];
    cap = 4;
    head = 1;
    tail = 3;
  };
  halted = false;
}
