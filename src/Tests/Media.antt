-- ===== src/Tests/Media.antt =====
-- kernel/drivers/floppy.c at concrete inputs: a disk of two cylinders with one sector of 128 bytes each.
use minima.Base.{
  suc, ◌≢◌, ◌↔◌, Bool, if◌then◌else◌, span, ℕ, ◌*◌, ◌%◌, ◌≡◌, inl, inr, refl, sym, ap, ◌∙◌, ◌==◌,
  Bool-cases, ==→eq, true, false, none, some, [], ◌∷◌, arith,
}
use minima.Floppy.{
  Transfer, reads, Format, Floppy, CylCache, unallocated, done, lba_to_cyl, size_of_cyl,
  flop_block_read, media_ejected, media_inserted,
}
use minima.Floppy.Cached.{Coherent, in_dma}
use minima.Floppy.Media.{detect_media, ended, check_error}
use minima.Floppy.Detect.{detect_media-first_read}
use minima.Floppy.Status.{is_clean, check_error-is_clean}
use minima.Floppy.Stale.{flop_block_read-stale}

abbrev disk : ℕ → ℕ
disk i = i % 256

abbrev small : Format
small = record { cyls = 2; heads = 1; sectors_per_track = 1; sector_size = 0 }

abbrev drive : Floppy
drive = record {
  num = 0;
  f = some small;
  cache = none;
  dma_buf = [];
  dma_buf_cyl = none;
  dma_buf_drv = none;
}

false-true : false ≡ true → ⊥
false-true e = cc

abbrev transfer : ℕ → Transfer
transfer n = reads (span disk (n * 128) 128)

abbrev one_cylinder : CylCache
one_cylinder = record {
  lru_cyls = record { buffer = unallocated; num = none } ∷ [];
  cyl_size = 128;
}

abbrev read_once : Floppy
read_once = record drive {
  cache = some one_cylinder;
  dma_buf = span disk 128 128;
  dma_buf_cyl = some 1;
  dma_buf_drv = some 0;
}

read_once-dma :
    (n : ℕ) → in_dma disk 128 read_once n ≡ true → read_once.dma_buf ≡ span disk (n * 128) 128
read_once-dma n e = elim (Bool-cases (1 == n)) [
  | inl same ↦ ap (λ k. span disk (k * 128) 128) (==→eq 1 n same)
  | inr other ↦ absurd (false-true (sym (rw other refl) ∙ e))
]

read_once-Coherent : Coherent disk (size_of_cyl small) read_once
read_once-Coherent = record { cache = (refl, (tt, tt), omega arith); dma = read_once-dma }

flop_block_read-stale_example :
    (d1 : Floppy) × (d2 : Floppy) × (d' : Floppy) × (media_ejected read_once ≡ some d1)
    × (media_inserted d1 (some small) ≡ some d2)
    × (flop_block_read [] (λ n. reads []) d2 1 ≡ (done (span disk 128 128), d'))
unfolding lba_to_cyl
flop_block_read-stale_example =
    flop_block_read-stale disk small read_once one_cylinder [] [] (λ n. reads []) 1
      read_once-Coherent refl refl (omega arith) (omega arith) (omega arith) (omega arith)
      (omega arith) (omega arith) refl refl

-- the order of formats of a drive for 1.44 MB, where only the format 6 can be read
abbrev only_six : ℕ → Bool
only_six k = if k == 6 then false else true

nonzero : (k : ℕ) → suc k ≢ 0
nonzero k e = omega (arith, e)

detect_media-first_read_example :
    detect_media 4 (7 ∷ 6 ∷ 5 ∷ 0 ∷ []) 0 only_six ≡ ended (record { f = some 6; detect_idx = 1 })
detect_media-first_read_example =
    detect_media-first_read only_six 7 (6 ∷ 5 ∷ []) [] 4 0 (nonzero 6, (nonzero 5, (nonzero 4, tt)))
      (omega arith)

check_error-is_clean_example : (check_error 0 2 48 0 0 2 ≡ some 0) ↔ (is_clean 0 2 48 0 0 2 ≡ true)
check_error-is_clean_example = check_error-is_clean 0 2 48 0 0 2
