-- ===== src/Cli.antt =====
-- kernel/x86.c: the nested sections with interrupts off (cli_push, cli_pop) and on (sti_push,
-- sti_pop) of one task.
pub mod Nesting
use minima.Base.{ℕ, zero, suc, ◌+◌, Bool, true, false, not, Option, none, some, ◌==◌, if◌then◌else◌}

-- The interrupt flag, and what the task keeps.
pub record Cpu : Type 0 where
  pub interrupts : Bool
  pub cli_depth : ℕ
  pub cli_int_enabled : Bool
  pub sti_depth : ℕ
  pub sti_int_disabled : Bool

unfoldable pub cli_push : Cpu → Cpu
cli_push c = record c {
  interrupts = false;
  cli_int_enabled = if c.cli_depth == 0 then c.interrupts else c.cli_int_enabled;
  cli_depth = c.cli_depth + 1;
}

-- `none` is a panic.
unfoldable pub cli_pop : Cpu → Option Cpu
cli_pop c = if c.interrupts then none else elim c.cli_depth [
  | zero ↦ none
  | suc zero ↦
      some
        (record c { cli_depth = 0; interrupts = if c.cli_int_enabled then true else c.interrupts })
  | suc (suc n) ↦ some (record c { cli_depth = suc n })
]

unfoldable pub sti_push : Cpu → Cpu
sti_push c = record c {
  interrupts = true;
  sti_int_disabled = if c.sti_depth == 0 then not c.interrupts else c.sti_int_disabled;
  sti_depth = c.sti_depth + 1;
}

unfoldable pub sti_pop : Cpu → Option Cpu
sti_pop c = if not c.interrupts then none else elim c.sti_depth [
  | zero ↦ none
  | suc zero ↦
      some (record c {
        sti_depth = 0;
        interrupts = if c.sti_int_disabled then false else c.interrupts;
      })
  | suc (suc n) ↦ some (record c { sti_depth = suc n })
]
