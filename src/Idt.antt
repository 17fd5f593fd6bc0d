-- ===== src/Idt.antt =====
-- kernel/idt.c: the table of interrupts, who handles them, and how the interrupt controllers are told.
pub mod Handlers
use Prim.Native.Nat.{bit_or}
use minima.Base.{
  ℕ, suc, ◌+◌, ◌-◌, ◌/◌, ◌%◌, ◌^◌, Bool, true, false, not, ◌&&◌, Option, none, some, List, [], ◌∷◌,
  ◌++◌, ltb, leb, ◌==◌, if◌then◌else◌, add32,
}

-- `struct idt_entry`
pub record IdtEntry : Type 0 where
  pub offset_lowerbits : ℕ
  pub selector : ℕ
  pub zeroed : ℕ
  pub type_attr : ℕ
  pub offset_higherbits : ℕ

-- `struct irq_handler`; a function is its address, 0 is NULL.
pub record IrqHandler : Type 0 where
  pub name : List ℕ
  pub attr : ℕ
  pub handler : ℕ

-- `irq_handlers` (none is NULL), `idt_entries` and `irq_counts`
pub record Idt : Type 0 where
  pub irq_handlers : ℕ → Option IrqHandler
  pub idt_entries : ℕ → IdtEntry
  pub irq_counts : ℕ → ℕ

-- What an interrupt does to the outside: bytes to ports, and the call of its handler.
pub data Event : Type 0 where
  io_out8 : ℕ → ℕ → Event
  calls : ℕ → Event

abbrev pub num_irqs : ℕ
num_irqs = 256

abbrev pub irq0_offset : ℕ
irq0_offset = 32

abbrev pub irq_kernel : ℕ
irq_kernel = 142

abbrev pub irq_user : ℕ
irq_user = 238

abbrev pub pic1 : ℕ
pic1 = 32

abbrev pub pic2 : ℕ
pic2 = 160

abbrev pub pic_eoi_cmd : ℕ
pic_eoi_cmd = 32

abbrev pub update {ℓ} : {A : Type ℓ} → (ℕ → A) → ℕ → A → ℕ → A
update f i v j = if j == i then v else f j

unfoldable pub set_idt_entry : Idt → ℕ → ℕ → ℕ → Idt
set_idt_entry s idx handler attr = record s {
  idt_entries = update s.idt_entries idx (record {
    offset_lowerbits = handler % 2 ^ 16;
    selector = 8;
    zeroed = 0;
    type_attr = attr;
    offset_higherbits = handler / 2 ^ 16;
  });
}

-- `pic_get_isr`: both controllers are asked for the interrupts in service; what they answer is an
-- argument of `do_irq`.
unfoldable pub pic_get_isr : List Event
pic_get_isr = io_out8 pic1 11 ∷ io_out8 pic2 11 ∷ []

unfoldable pub pic_eoi : ℕ → List Event
pic_eoi irq =
    if leb (irq0_offset + 8) irq
    then io_out8 pic2 pic_eoi_cmd ∷ io_out8 pic1 pic_eoi_cmd ∷ []
    else io_out8 pic1 pic_eoi_cmd ∷ []

-- `isr & (1 << k)` is set
abbrev pub has_bit : ℕ → ℕ → Bool
has_bit isr k = isr / 2 ^ k % 2 == 1

-- `irq_counts[irq]++`
abbrev pub counted : Idt → ℕ → Idt
counted s irq = record s { irq_counts = update s.irq_counts irq (add32 (s.irq_counts irq) 1) }

-- The call of the handler; none is a call through NULL.
abbrev pub dispatch : Option IrqHandler → Option (List Event)
dispatch none = none
dispatch (some h) = some (calls h.handler ∷ [])

abbrev pub and_then : List Event → Option (List Event) → Option (List Event)
and_then out none = none
and_then out (some more) = some (out ++ more)

-- `do_irq`: the events, and the table after it. The tests of the two lines that a glitch raises ask the
-- controllers first.
unfoldable pub asked : ℕ → List Event
unfolding pic_get_isr
asked irq =
    if irq == irq0_offset + 7
    then pic_get_isr
    else if irq == irq0_offset + 15
    then pic_get_isr
    else []

unfoldable pub ended : ℕ → List Event
unfolding pic_eoi
ended irq = if leb irq0_offset irq && leb irq (irq0_offset + 15) then pic_eoi irq else []

abbrev pub is_spurious : ℕ → ℕ → ℕ → Bool
is_spurious irq isr k = irq == irq0_offset + k && not (has_bit isr k)

unfoldable pub do_irq : Idt → ℕ → ℕ → Option (List Event) × Idt
unfolding asked ended
do_irq s irq isr =
    if is_spurious irq isr 7
    then (some (asked irq), counted s irq)
    else if is_spurious irq isr 15
    then (some (asked irq ++ (io_out8 pic1 pic_eoi_cmd ∷ [])), counted s irq)
    else (and_then (asked irq ++ ended irq) (dispatch (s.irq_handlers irq)), counted s irq)

-- `attach_irq` returns 0, -EINVAL or -EEXIST, or its assertion fails. `do_default` is the address of
-- that function; a new entry is allocated where there is none.
pub data Attach : Type 0 where
  attached : Idt → Attach
  einval : Attach
  eexist : Attach
  fails : Attach

abbrev pub is_taken : ℕ → Option IrqHandler → Bool
is_taken do_default none = false
is_taken do_default (some h) = not (h.handler == 0) && not (h.handler == do_default)

unfoldable pub attach_irq : ℕ → Idt → ℕ → ℕ → List ℕ → Attach
attach_irq do_default s irq handler name =
    if leb num_irqs irq
    then einval
    else if (s.idt_entries irq).type_attr == 0
    then fails
    else if is_taken do_default (s.irq_handlers irq)
    then eexist
    else attached (record s {
      irq_handlers =
          update s.irq_handlers irq
            (some (record { name = name; attr = irq_kernel; handler = handler }));
    })

-- `pic_get_port`: the data port of the controller, and the line of it.
unfoldable pub pic_get_port : ℕ → ℕ × ℕ
pic_get_port irq = if ltb irq 8 then (pic1 + 1, irq) else (pic2 + 1, irq - 8)

-- The mask that pic_mask_irq and pic_unmask_irq write, for the one that is read.
unfoldable pub pic_mask_irq : ℕ → ℕ → ℕ × ℕ
unfolding pic_get_port
pic_mask_irq irq mask = ((pic_get_port irq).0, bit_or mask (2 ^ (pic_get_port irq).1))

unfoldable pub pic_unmask_irq : ℕ → ℕ → ℕ × ℕ
unfolding pic_get_port
pic_unmask_irq irq mask =
    let line = 2 ^ (pic_get_port irq).1 in
    ((pic_get_port irq).0, if mask / line % 2 == 1 then mask - line else mask)
