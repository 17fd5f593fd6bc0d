-- ===== src/Dma.antt =====
-- kernel/dma.c: what is sent to the DMA controllers for a transfer, as a list of ports and bytes.
pub mod Buffers
use Prim.Native.Nat.{bit_or}
use minima.Base.{
  ℕ, ◌+◌, ◌*◌, ◌/◌, ◌%◌, ◌^◌, Bool, true, false, not, ◌||◌, Option, none, some, List, [], ◌∷◌, ◌++◌,
  ltb, ◌==◌, if◌then◌else◌, get_or, sub32,
}

abbrev pub addr_regs : List ℕ
addr_regs = 0 ∷ 2 ∷ 4 ∷ 6 ∷ []

abbrev pub count_regs : List ℕ
count_regs = 1 ∷ 3 ∷ 5 ∷ 7 ∷ []

abbrev pub page_regs : List ℕ
page_regs = 135 ∷ 131 ∷ 129 ∷ 130 ∷ []

-- `enum dma_dir`
pub data DmaDir : Type 0 where
  dma_dir_read : DmaDir
  dma_dir_write : DmaDir

abbrev pub dma_slave_offset : ℕ
dma_slave_offset = 192

-- `dma_reg_write`; the register has 8 bits.
unfoldable pub dma_reg_write : ℕ → ℕ → ℕ → List (ℕ × ℕ)
dma_reg_write channel reg value =
    let slave = if ltb 15 reg then reg + 8 else reg * 2 + dma_slave_offset in
    (if ltb 3 channel then slave % 2 ^ 8 else reg, value) ∷ []

abbrev pub dma_wreg_single_chan_mask : ℕ
dma_wreg_single_chan_mask = 10

abbrev pub dma_wreg_mode : ℕ
dma_wreg_mode = 11

abbrev pub dma_wreg_flipflop_reset : ℕ
dma_wreg_flipflop_reset = 12

unfoldable pub dma_reg_write16 : ℕ → ℕ → ℕ → List (ℕ × ℕ)
unfolding dma_reg_write
dma_reg_write16 channel reg value =
    dma_reg_write channel dma_wreg_flipflop_reset 255
    ++ dma_reg_write channel reg (value % 2 ^ 8)
    ++ dma_reg_write channel reg (value / 2 ^ 8 % 2 ^ 8)

-- none is the failed assertion
unfoldable pub dma_set_start_addr : ℕ → ℕ → Option (List (ℕ × ℕ))
unfolding dma_reg_write dma_reg_write16
dma_set_start_addr channel addr =
    if not (addr / 2 ^ 24 == 0)
    then none
    else some (
        dma_reg_write16 channel (get_or addr_regs (channel % 4) 0) (addr % 2 ^ 16)
        ++ dma_reg_write channel (get_or page_regs (channel % 4) 0) (addr / 2 ^ 16 % 2 ^ 8))

-- The bits of the direction, which are put into the mode.
abbrev pub transfer_bits : DmaDir → ℕ
transfer_bits dma_dir_read = 4
transfer_bits dma_dir_write = 8

abbrev pub mode_byte : ℕ → ℕ → DmaDir → ℕ
mode_byte channel mode dir = bit_or (bit_or mode (channel % 4)) (transfer_bits dir)

-- The test of the buffer.
unfoldable pub is_bad : ℕ → ℕ → Bool
is_bad buf count =
    not (buf / 2 ^ 24 == 0)
    || (not (count / 2 ^ 16 == 0) || not ((buf % 2 ^ 16 + count) % 2 ^ 32 / 2 ^ 16 == 0))

abbrev pub after_start : ℕ → ℕ → ℕ → DmaDir → Option (List (ℕ × ℕ)) → Option (List (ℕ × ℕ))
after_start channel mode bytes dir none = none
after_start channel mode bytes dir (some start) = some (
    dma_reg_write channel dma_wreg_single_chan_mask 6
    ++ start
    ++ dma_reg_write16 channel (get_or count_regs (channel % 4) 0) (sub32 bytes 1 % 2 ^ 16)
    ++ dma_reg_write channel dma_wreg_mode (mode_byte channel mode dir)
    ++ dma_reg_write channel dma_wreg_single_chan_mask 2)

-- none is a panic
unfoldable pub dma_setup : ℕ → ℕ → ℕ → ℕ → DmaDir → Option (List (ℕ × ℕ))
unfolding dma_set_start_addr is_bad
dma_setup channel mode buf bytes dir =
    if is_bad buf (sub32 bytes 1)
    then none
    else after_start channel mode bytes dir (dma_set_start_addr channel buf)
