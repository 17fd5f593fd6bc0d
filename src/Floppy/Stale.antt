-- ===== src/Floppy/Stale.antt =====
-- kernel/drivers/floppy.c: a change of the disk does not clear dma_buf.
use mathlib.Core.Path.{subst}
use minima.Base.{
  span, ℕ, suc, ◌*◌, ◌^◌, ◌≤◌, ◌<◌, ◌≡◌, inl, inr, refl, sym, ap, ◌∙◌, true, none, some, List, [],
  ◌∷◌, arith, length, All,
}
use minima.Floppy.{
  Transfer, reads, loses, Format, Buffer, unallocated, purged, holds, Cylinder, CylCache, Floppy,
  done, lba_to_cyl, flop_block_size, size_of_cyl, cyl_cache_invalidate, flop_block_read,
  media_ejected, media_inserted,
}
use minima.Floppy.Cached.{Shows, IsCached, in_dma, IsCache, Coherent}
use minima.Floppy.Reads.{block_read-span}

Shows-none : (byte : ℕ → ℕ) (size : ℕ) (b : Buffer) → Shows byte size b none
Shows-none byte size unallocated = tt
Shows-none byte size purged = tt
Shows-none byte size (holds bytes) = tt

invalidate-IsCached :
    (byte : ℕ → ℕ) (size : ℕ) (l : List Cylinder)
    → All (IsCached byte size) (cyl_cache_invalidate l)
unfolding cyl_cache_invalidate
invalidate-IsCached byte size [] = tt
invalidate-IsCached byte size (c ∷ l) =
    (Shows-none byte size c.buffer, invalidate-IsCached byte size l)

loses_reads : (left new : List ℕ) → loses left ≡ reads new → ⊥
loses_reads left new e = cc

length-invalidate : (l : List Cylinder) → length (cyl_cache_invalidate l) ≡ length l
unfolding cyl_cache_invalidate
length-invalidate [] = refl
length-invalidate (c ∷ l) = ap suc (length-invalidate l)

-- The drive after the disk is changed for one of the format `f`.
abbrev changed : Floppy → CylCache → Format → Floppy
changed d c f = record d {
  f = some f;
  cache = some (record c { lru_cyls = cyl_cache_invalidate c.lru_cyls });
}

-- When the disk is changed for one of the same format while dma_buf holds a cylinder of the old
-- disk, a read of a block of that cylinder returns the bytes of the old disk, whatever the
-- controller would transfer from the new one.
pub flop_block_read-stale :
    (old : ℕ → ℕ) (f : Format) (d : Floppy) (c : CylCache) (fresh new : List ℕ)
    (transfer : ℕ → Transfer) (lba : ℕ)
    → Coherent old (size_of_cyl f) d
    → d.f ≡ some f
    → d.cache ≡ some c
    → 0 < f.heads
    → 0 < f.sectors_per_track
    → size_of_cyl f < 2 ^ 16
    → f.cyls ≤ 128
    → lba < f.cyls * f.heads * f.sectors_per_track
    → lba < 2 ^ 16
    → in_dma old (size_of_cyl f) d (lba_to_cyl f lba) ≡ true
    → transfer (lba_to_cyl f lba) ≡ reads new
    → (d1 : Floppy) × (d2 : Floppy) × (d' : Floppy) × (media_ejected d ≡ some d1)
      × (media_inserted d1 (some f) ≡ some d2)
      × (flop_block_read fresh transfer d2 lba
          ≡ (done (span old (lba * flop_block_size f) (flop_block_size f)), d'))
unfolding media_ejected media_inserted
flop_block_read-stale old f d c fresh new transfer lba is disk cache h s small few low word held
      gives =
    let size = size_of_cyl f in
    let d2 = changed d c f in
    let (sized, all, some_cyl) = subst (IsCache old size) cache is.cache in
    let is2 : Coherent old size d2 = record {
      cache = (
        sized,
        invalidate-IsCached old size c.lru_cyls,
        omega (arith, some_cyl, length-invalidate c.lru_cyls),
      );
      dma = is.dma;
    } in
    let (d', fmt, result) =
      block_read-span old f d2 fresh transfer lba is2 refl h s small few low word (inl held) in
    (
      record d2 { f = none },
      d2,
      d',
      rw (disk, cache) refl,
      refl,
      elim result [
        | inl (e, kept) ↦ e
        | inr (left, lost, e, kept) ↦ absurd (loses_reads left new (sym lost ∙ gives))
      ],
    )
