-- ===== src/Cli/Nesting.antt =====
-- kernel/x86.c: what nested sections come to.
use minima.Base.{
  ℕ, suc, ◌+◌, ◌≡◌, refl, Bool, true, false, Option, none, some, arith, ◌==◌, ne→not-==,
}
use minima.Cli.{Cpu, cli_push, cli_pop, sti_push, sti_pop}

-- Sections with interrupts off, one after the other and inside each other.
pub data Sections : Type 0 where
  nothing : Sections
  section : Sections → Sections → Sections

-- Enter the section, run what is inside, leave it, and go on.
abbrev pub and_then : Option Cpu → (Cpu → Option Cpu) → Option Cpu
and_then none f = none
and_then (some c) f = f c

unfoldable pub run : Sections → Cpu → Option Cpu
run nothing c = some c
run (section inner rest) c =
    and_then (run inner (cli_push c)) (λ c'. and_then (cli_pop c') (run rest))

-- a task inside so many sections and one more, and one outside all of them
abbrev inside : ℕ → Bool → ℕ → Bool → Cpu
inside n saved depth disabled = record {
  interrupts = false;
  cli_depth = suc n;
  cli_int_enabled = saved;
  sti_depth = depth;
  sti_int_disabled = disabled;
}

abbrev pub outside : Bool → Bool → ℕ → Bool → Cpu
outside flag saved depth disabled = record {
  interrupts = flag;
  cli_depth = 0;
  cli_int_enabled = saved;
  sti_depth = depth;
  sti_int_disabled = disabled;
}

push-inside :
    (n : ℕ) (e : Bool) (k : ℕ) (d : Bool) → cli_push (inside n e k d) ≡ inside (suc n) e k d
unfolding cli_push
push-inside n e k d =
    let deeper : suc n + 1 ≡ suc (suc n) = omega arith in
    let below : (suc n == 0) ≡ false = ne→not-== (suc n) 0 (omega arith) in rw (below, deeper)

pop-inside :
    (n : ℕ) (e : Bool) (k : ℕ) (d : Bool) → cli_pop (inside (suc n) e k d) ≡ some (inside n e k d)
unfolding cli_pop
pop-inside n e k d = refl

push-outside : (f e : Bool) (k : ℕ) (d : Bool) → cli_push (outside f e k d) ≡ inside 0 f k d
unfolding cli_push
push-outside f e k d = refl

pop-outside : (e : Bool) (k : ℕ) (d : Bool) → cli_pop (inside 0 e k d) ≡ some (outside e e k d)
unfolding cli_pop
pop-outside true k d = refl
pop-outside false k d = refl

run-inside :
    (b : Sections) (n : ℕ) (e : Bool) (k : ℕ) (d : Bool)
    → run b (inside n e k d) ≡ some (inside n e k d)
unfolding run
run-inside nothing n e k d = refl
run-inside (section inner rest) n e k d =
    rw (push-inside n e k d, run-inside inner (suc n) e k d, pop-inside n e k d)
      (run-inside rest n e k d)

-- However sections between cli_push and cli_pop are nested and follow each other, a task outside
-- all of them runs them without a panic and has its interrupt flag and its depth back after them.
pub run-outside :
    (b : Sections) (f e : Bool) (k : ℕ) (d : Bool)
    → (e' : Bool) × (run b (outside f e k d) ≡ some (outside f e' k d))
unfolding run
run-outside nothing f e k d = (e, refl)
run-outside (section inner rest) f e k d =
    let (e', r) = run-outside rest f f k d in
    (e', rw (push-outside f e k d, run-inside inner 0 f k d, pop-outside f k d) r)

-- In a section with interrupts off, inside one with interrupts on, inside one with interrupts off,
-- cli_pop of the innermost leaves the interrupts off, and sti_pop of the one around it panics.
pub sti_pop_panics :
    (f e d : Bool)
    → (c : Cpu) × (cli_pop (cli_push (sti_push (cli_push (outside f e 0 d)))) ≡ some c)
      × (sti_pop c ≡ none)
unfolding cli_push sti_push cli_pop sti_pop
sti_pop_panics f e d = (record (inside 0 f 1 true) { interrupts = false }, refl, refl)
