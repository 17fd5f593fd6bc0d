-- ===== src/Floppy/Reads.antt =====
-- kernel/drivers/floppy.c, `flop_block_read`: it reads what is on the disk, from the cache or not.
use mathlib.Core.Path.{subst}
use native.Mathlib.Nat.{mod-eq_of_lt}
use minima.Base.{
  span, ℕ, ◌+◌, ◌-◌, ◌*◌, ◌%◌, ◌^◌, ◌≤◌, ◌<◌, ◌≡◌, ◌⊎◌, inl, inr, refl, sym, ap, ◌∙◌, Option, some,
  List, arith, take, drop,
}
use minima.Floppy.{
  Format, Floppy, Outcome, done, err, eio, size_of_cyl, cyl_cache_read, Transfer, loses, block_at,
  lba_to_cyl, lba_to_head, lba_to_sector, flop_block_size, flop_block_read, copy_block,
}
use minima.Floppy.Geometry.{
  take-span, drop-span, lba-IsPlace, place_in_disk, place_in_cyl, cyl_in_disk,
}
use minima.Floppy.Cached.{Coherent, IsCache, Delivers, Got, got, error}
use minima.Floppy.Cylinders.{cyl_cache_read-Got}

-- A read of a block on a drive: it returns the bytes of the block and leaves the cache and dma_buf as
-- the disk is, or an error, where the controller lost the cylinder, and leaves the cache as the disk is.
abbrev pub ReadOrLost :
    (ℕ → ℕ) → Format → ℕ → Transfer → Floppy → Outcome (List ℕ) × Floppy → Type 0
ReadOrLost byte f lba o d' r =
    ((r ≡ (done (span byte (lba * flop_block_size f) (flop_block_size f)), d'))
      × Coherent byte (size_of_cyl f) d')
    ⊎ ((left : List ℕ) × (o ≡ loses left)
        × (r ≡ (err eio, d'))
        × IsCache byte (size_of_cyl f) d'.cache)

-- What `flop_block_read` makes of the cylinder of a block.
copy_block-span :
    (byte : ℕ → ℕ) (f : Format) (lba : ℕ) (o : Transfer) (fmt : Option Format)
    → 0 < f.heads
    → 0 < f.sectors_per_track
    → (r : Outcome (List ℕ) × Floppy) → Got byte (size_of_cyl f) (lba_to_cyl f lba) o fmt r
    → (d' : Floppy) × (d'.f ≡ fmt) × ReadOrLost byte f lba o d' (copy_block f lba r)
copy_block-span byte f lba o fmt h s r (error {d'} {left} e is same) =
    (d', same, inr (left, e, refl, is))
copy_block-span byte f lba o fmt h s r (got {bytes} {d'} held is same) =
    let sec = flop_block_size f in
    let size = size_of_cyl f in
    let place = lba-IsPlace f lba h s in
    let c = lba_to_cyl f lba in
    let hd = lba_to_head f lba in
    let k = lba_to_sector f lba - 1 in
    let at = hd * (f.sectors_per_track * sec) + k * sec in
    let low : k < f.sectors_per_track = omega (arith, place.sector, place.sector_from) in
    let fits : at + sec ≤ size = place_in_cyl sec f.sectors_per_track f.heads hd k place.head low in
    let start : c * size + at ≡ lba * sec =
      place_in_disk sec f.sectors_per_track f.heads c hd k lba place.number in
    let copied : take sec (drop at bytes) ≡ span byte (lba * sec) sec =
      ap (λ l. take sec (drop at l)) held
      ∙ ap (take sec) (drop-span byte (c * size) at size (omega (arith, fits)))
      ∙ take-span byte (c * size + at) sec (size - at) (omega (arith, fits))
      ∙ ap (λ i. span byte i sec) start in
    (d', same, inl (ap (λ l. (done l, d')) copied, is))

pub block_read-span :
    (byte : ℕ → ℕ) (f : Format) (d : Floppy) (fresh : List ℕ) (transfer : ℕ → Transfer) (lba : ℕ)
    → Coherent byte (size_of_cyl f) d
    → d.f ≡ some f
    → 0 < f.heads
    → 0 < f.sectors_per_track
    → size_of_cyl f < 2 ^ 16
    → f.cyls ≤ 128
    → lba < f.cyls * f.heads * f.sectors_per_track
    → lba < 2 ^ 16
    → Delivers byte (size_of_cyl f) d (lba_to_cyl f lba) (transfer (lba_to_cyl f lba))
    → (d' : Floppy) × (d'.f ≡ some f)
      × ReadOrLost byte f lba
          (transfer (lba_to_cyl f lba))
          d'
          (flop_block_read fresh transfer d lba)
unfolding flop_block_read
block_read-span byte f d fresh transfer lba is disk h s small few low word from =
    let cyl = lba_to_cyl f lba in
    let in_disk = cyl_in_disk f lba h s low in
    let byte_wide : cyl % 2 ^ 8 ≡ cyl = omega (arith, in_disk, few) in
    let runs : flop_block_read fresh transfer d lba
        ≡ copy_block f lba (cyl_cache_read fresh transfer d f cyl) =
      ap (block_at fresh transfer d d.f) (mod-eq_of_lt word)
      ∙ ap (λ o. block_at fresh transfer d o lba) disk
      ∙ ap (λ n. copy_block f lba (cyl_cache_read fresh transfer d f n)) byte_wide in
    let (d', fmt, result) =
      copy_block-span byte f lba (transfer cyl) d.f h s (cyl_cache_read fresh transfer d f cyl) (
        cyl_cache_read-Got byte f d fresh transfer cyl is small (omega (arith, in_disk, few))
          from) in
    (d', fmt ∙ disk, subst (ReadOrLost byte f lba (transfer cyl) d') (sym runs) result)
