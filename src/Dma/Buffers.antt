-- ===== src/Dma/Buffers.antt =====
-- kernel/dma.c: the buffers that dma_setup takes, and that the bytes it sends are their address and size.
use Prim.Native.Nat.{bit_or}
use minima.Base.{
  ℕ, zero, suc, ◌+◌, ◌-◌, ◌*◌, ◌/◌, ◌%◌, ◌^◌, ◌≤◌, ◌<◌, ◌≡◌, inl, inr, refl, sym, ◌∙◌, true, false,
  Option, none, some, List, [], ◌∷◌, arith, sub32, Bool-cases,
}
use minima.Dma.{
  DmaDir, dma_reg_write, dma_reg_write16, dma_set_start_addr, is_bad, after_start, dma_setup,
}

-- At least one byte, below 16 MiB, the first and the last one in the same 64 KiB.
pub record Fits (buf bytes : ℕ) : Type 0 where
  pub some_byte : 1 ≤ bytes
  pub low : buf + bytes ≤ 2 ^ 24
  pub within : (buf + (bytes - 1)) / 2 ^ 16 ≡ buf / 2 ^ 16

-- The port for the highest byte of the address, and the bits of a direction, as the hardware has them:
-- 4 for a device that writes to memory, 8 for one that reads from it.
abbrev pub page_port : ℕ → ℕ
page_port zero = 135
page_port (suc zero) = 131
page_port (suc (suc zero)) = 129
page_port (suc (suc (suc c))) = 130

abbrev pub direction : DmaDir → ℕ
direction DmaDir.dma_dir_read = 4
direction DmaDir.dma_dir_write = 8

-- The ports and bytes for a buffer, by the parts of its address and of its size less 1.
abbrev pub sequence : ℕ → ℕ → DmaDir → ℕ → ℕ → ℕ → ℕ → ℕ → List (ℕ × ℕ)
sequence channel mode dir a0 a1 a2 c0 c1 =
    (10, 6)
    ∷ (12, 255)
    ∷ (2 * channel, a0)
    ∷ (2 * channel, a1)
    ∷ (page_port channel, a2)
    ∷ (12, 255)
    ∷ (2 * channel + 1, c0)
    ∷ (2 * channel + 1, c1)
    ∷ (11, bit_or (bit_or mode channel) (direction dir))
    ∷ (10, 2)
    ∷ []

is_bad-Fits :
    (buf bytes : ℕ)
    → buf < 2 ^ 32
    → bytes < 2 ^ 32
    → is_bad buf (sub32 bytes 1) ≡ false
    → Fits buf bytes
unfolding is_bad
is_bad-Fits buf bytes low low' e = record {
  some_byte = ground (arith, e, low, low');
  low = ground (arith, e, low, low');
  within = ground (arith, e, low, low');
}

not_bad-Fits :
    (buf bytes : ℕ)
    → buf < 2 ^ 32
    → bytes < 2 ^ 32
    → Fits buf bytes
    → is_bad buf (sub32 bytes 1) ≡ false
unfolding is_bad
not_bad-Fits buf bytes low low' fits =
    ground (arith, low, low', fits.some_byte, fits.low, fits.within)

sends :
    (channel mode buf bytes : ℕ) (dir : DmaDir)
    → channel < 4
    → buf / 2 ^ 24 ≡ 0
    → after_start channel mode bytes dir (dma_set_start_addr channel buf)
      ≡ some (
          sequence channel mode dir
            (buf % 2 ^ 16 % 2 ^ 8)
            (buf % 2 ^ 16 / 2 ^ 8 % 2 ^ 8)
            (buf / 2 ^ 16 % 2 ^ 8)
            (sub32 bytes 1 % 2 ^ 16 % 2 ^ 8)
            (sub32 bytes 1 % 2 ^ 16 / 2 ^ 8 % 2 ^ 8))
unfolding dma_set_start_addr dma_reg_write16 dma_reg_write
sends zero mode buf bytes dir four low = rw low refl
sends (suc zero) mode buf bytes dir four low = rw low refl
sends (suc (suc zero)) mode buf bytes dir four low = rw low refl
sends (suc (suc (suc zero))) mode buf bytes dir four low = rw low refl
sends (suc (suc (suc (suc c)))) mode buf bytes dir four low = absurd (omega (arith, four))

-- What dma_setup comes to.
pub data Programmed (channel mode buf bytes : ℕ) (dir : DmaDir)
    : Option (List (ℕ × ℕ)) → Type 0 where
  programmed :
      {a0 a1 a2 c0 c1 : ℕ}
      → Fits buf bytes
      → (a0 < 256) × ((a1 < 256) × ((a2 < 256) × ((c0 < 256) × (c1 < 256))))
      → a0 + 2 ^ 8 * a1 + 2 ^ 16 * a2 ≡ buf
      → c0 + 2 ^ 8 * c1 + 1 ≡ bytes
      → Programmed channel mode buf bytes dir (some (sequence channel mode dir a0 a1 a2 c0 c1))
  panics : (Fits buf bytes → ⊥) → Programmed channel mode buf bytes dir none

parts-Programmed :
    (channel mode buf bytes : ℕ) (dir : DmaDir)
    → Fits buf bytes
    → Programmed channel mode buf bytes dir (
        some (
          sequence channel mode dir
            (buf % 2 ^ 16 % 2 ^ 8)
            (buf % 2 ^ 16 / 2 ^ 8 % 2 ^ 8)
            (buf / 2 ^ 16 % 2 ^ 8)
            (sub32 bytes 1 % 2 ^ 16 % 2 ^ 8)
            (sub32 bytes 1 % 2 ^ 16 / 2 ^ 8 % 2 ^ 8)))
parts-Programmed channel mode buf bytes dir fits =
    let some_byte = fits.some_byte in
    let below = fits.low in
    let within = fits.within in
    programmed {a0 = buf % 2 ^ 16 % 2 ^ 8} {a1 = buf % 2 ^ 16 / 2 ^ 8 % 2 ^ 8}
      {a2 = buf / 2 ^ 16 % 2 ^ 8} {c0 = sub32 bytes 1 % 2 ^ 16 % 2 ^ 8}
      {c1 = sub32 bytes 1 % 2 ^ 16 / 2 ^ 8 % 2 ^ 8} fits
      (omega arith, (omega arith, (omega arith, (omega arith, omega arith)))) (omega (arith, below))
      (omega (arith, below, some_byte, within))

-- For the channels 0 to 3 and an address and a size of 32 bits, dma_setup panics unless the buffer
-- has at least one byte, lies below 16 MiB and within 64 KiB that begin at a multiple of 64 KiB.
-- For such a buffer it masks channel 2, sends the address as three bytes and the size less 1 as two
-- to the registers of the channel, each 16 bits of them after a reset of the flip-flop and the low
-- byte first, sends the mode with the channel and the direction in it, and takes the mask of
-- channel 2 away; together the bytes are the address and the size.
pub dma_setup-Programmed :
    (channel mode buf bytes : ℕ) (dir : DmaDir)
    → channel < 4
    → buf < 2 ^ 32
    → bytes < 2 ^ 32
    → Programmed channel mode buf bytes dir (dma_setup channel mode buf bytes dir)
unfolding dma_setup
dma_setup-Programmed channel mode buf bytes dir four low low' =
    elim (Bool-cases (is_bad buf (sub32 bytes 1))) [
      | inl e ↦ rw e (panics (λ fits. true_false (sym e ∙ not_bad-Fits buf bytes low low' fits)))
      | inr e ↦
          let fits = is_bad-Fits buf bytes low low' e in
          let high : buf / 2 ^ 24 ≡ 0 = omega (arith, fits.low, fits.some_byte) in
          rw (e, sends channel mode buf bytes dir four high)
            (parts-Programmed channel mode buf bytes dir fits)
    ]
  where
    true_false : true ≡ false → ⊥
    true_false e = cc
