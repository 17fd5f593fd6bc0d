-- ===== src/Idt/Handlers.antt =====
-- kernel/idt.c: an interrupt reaches the handler that was attached to it, and the controllers are told
-- once.
use minima.Base.{
  ℕ, ◌+◌, ◌<◌, ◌≡◌, ◌≢◌, inl, inr, refl, ap, ◌∙◌, true, false, ◌||◌, some, List, [], ◌∷◌, ◌++◌,
  arith, ltb, leb, ◌==◌, if◌then◌else◌, Bool-cases, ==_refl, ne→not-==, ==→eq,
}
use minima.Idt.{
  IrqHandler, Idt, Event, calls, io_out8, num_irqs, irq_kernel, update, do_irq, attached, eexist,
  is_taken, attach_irq, has_bit, counted, asked, ended, is_spurious, dispatch, and_then,
}

-- The bytes that end the interrupt at the controllers: none for a processor exception, one to the
-- first, or one to the second and one to the first.
abbrev pub ends : ℕ → List Event
ends irq =
    if ltb irq 32
    then []
    else if ltb irq 40
    then io_out8 32 32 ∷ []
    else if ltb irq 48
    then io_out8 160 32 ∷ io_out8 32 32 ∷ []
    else []

-- Not one of the two lines that a glitch raises, unless its bit is set.
abbrev pub IsReal : ℕ → ℕ → Type 0
IsReal irq isr = (irq ≡ 39 → has_bit isr 7 ≡ true) × (irq ≡ 47 → has_bit isr 15 ≡ true)

-- The questions to the controllers about those two lines.
abbrev pub asks : ℕ → List Event
asks irq = if irq == 39 || irq == 47 then io_out8 32 11 ∷ io_out8 160 11 ∷ [] else []

asked-asks : (irq : ℕ) → asked irq ≡ asks irq
unfolding asked
asked-asks irq = ground arith

ended-ends : (irq : ℕ) → ended irq ≡ ends irq
unfolding ended
ended-ends irq = ground arith

real_line : (irq isr k : ℕ) → (irq ≡ 32 + k → has_bit isr k ≡ true) → is_spurious irq isr k ≡ false
real_line irq isr k real = elim (Bool-cases (irq == 32 + k)) [
  | inl e ↦ rw (e, real (==→eq irq (32 + k) e)) refl
  | inr e ↦ rw e refl
]

do_irq_real :
    (s : Idt) (irq isr : ℕ)
    → IsReal irq isr
    → do_irq s irq isr
      ≡ (and_then (asks irq ++ ends irq) (dispatch (s.irq_handlers irq)), counted s irq)
unfolding do_irq
do_irq_real s irq isr real =
    rw (real_line irq isr 7 real.0, real_line irq isr 15 real.1, asked-asks irq, ended-ends irq)
      refl

-- A free line of the table below 256 takes a handler; from then on an interrupt of the line that is
-- no glitch asks the controllers where it has to, ends the interrupt at each controller that it
-- came through, calls that handler and nothing else, and counts the interrupt. The other lines keep
-- their handlers, and another handler is refused for the line.
pub attach_irq-do_irq :
    (default irq isr handler again : ℕ) (name name' : List ℕ) (s : Idt)
    → irq < 256
    → (s.idt_entries irq).type_attr ≢ 0
    → is_taken default (s.irq_handlers irq) ≡ false
    → handler ≢ 0
    → handler ≢ default
    → IsReal irq isr
    → (s' : Idt) × (attach_irq default s irq handler name ≡ attached s')
      × (do_irq s' irq isr ≡ (some (asks irq ++ ends irq ++ (calls handler ∷ [])), counted s' irq))
      × ((other : ℕ) → other ≢ irq → s'.irq_handlers other ≡ s.irq_handlers other)
      × (attach_irq default s' irq again name' ≡ eexist)
unfolding attach_irq
attach_irq-do_irq default irq isr handler again name name' s low gate free some_handler new real =
    let h : IrqHandler = record { name = name; attr = irq_kernel; handler = handler } in
    let s' : Idt = record s { irq_handlers = update s.irq_handlers irq (some h) } in
    let in_table : leb num_irqs irq ≡ false = ground (arith, low) in
    let has_gate : ((s.idt_entries irq).type_attr == 0) ≡ false = ne→not-== _ 0 gate in
    let here : s'.irq_handlers irq ≡ some h = rw (==_refl irq) refl in
    let taken : is_taken default (s'.irq_handlers irq) ≡ true =
      ap (is_taken default) here
      ∙ rw (ne→not-== handler 0 some_handler, ne→not-== handler default new) refl in
    (
      s',
      rw (in_table, has_gate, free) refl,
      do_irq_real s' irq isr real
          ∙ ap (λ o. (and_then (asks irq ++ ends irq) (dispatch o), counted s' irq)) here,
      λ other ne. rw (ne→not-== other irq ne) refl,
      rw (in_table, has_gate, taken) refl,
    )
