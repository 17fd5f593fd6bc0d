-- ===== src/Tests/Memory.antt =====
-- kernel/mm/purge.c and kernel/dma.c at concrete inputs.
use minima.Base.{ℕ, ◌≡◌, ◌≢◌, refl, none, some, [], ◌∷◌, ◌==◌, arith}
use minima.Purge.{Purgeable, Purge, done, sleeps, purgeable_purge, purgeable_get, purgeable_put}
use minima.Purge.Sweeps.{Swept, purgeable_purge-Swept}
use minima.Purge.Held.{purgeable_put-get}
use minima.Dma.{DmaDir, dma_setup}
use minima.Dma.Buffers.{Programmed, dma_setup-Programmed}

abbrev kept : Purgeable
kept = record { buf = 4096; bytes = 100; lock = 1; on_purge = some 7 }

abbrev lost : Purgeable
lost = record { buf = 0; bytes = 50; lock = 1; on_purge = none }

abbrev cache : Purge
cache = record { s_purgeable = kept ∷ lost ∷ kept ∷ []; s_list = 1 }

one_zero : ◌≢◌ {A = ℕ} 1 0
one_zero e = omega (arith, e)

purgeable_purge-Swept_example : Swept 60 0 (kept ∷ lost ∷ kept ∷ []) (purgeable_purge 60 cache)
purgeable_purge-Swept_example =
    purgeable_purge-Swept 60 cache one_zero (one_zero, (one_zero, (one_zero, tt))) (omega arith)

fresh_zero : ◌≢◌ {A = ℕ} 8192 0
fresh_zero e = omega (arith, e)

kept_zero : ◌≢◌ {A = ℕ} 4096 0
kept_zero e = omega (arith, e)

zero_fresh : ◌≢◌ {A = ℕ} 0 8192
zero_fresh e = omega (arith, e)

kept_fresh : ◌≢◌ {A = ℕ} 4096 8192
kept_fresh e = omega (arith, e)

-- another entry whose buffer was purged stands in front
purgeable_put-get_example :
    (ptr : ℕ) × (p' : Purgeable) × (purgeable_get 8192 lost ≡ done (lost.buf == 0, ptr, p'))
    × ((lost.buf ≡ 0 → ptr ≡ 8192) × (lost.buf ≢ 0 → ptr ≡ lost.buf))
    × (purgeable_get 12288 p' ≡ sleeps)
    × (purgeable_purge 0 (record { s_purgeable = kept ∷ lost ∷ p' ∷ []; s_list = 1 }) ≡ sleeps)
    × (purgeable_put ptr (kept ∷ lost ∷ p' ∷ [])
        ≡ done (kept ∷ lost ∷ record lost { buf = ptr } ∷ []))
    × (ptr ≢ 0)
purgeable_put-get_example =
    purgeable_put-get 8192 12288 1 (kept ∷ lost ∷ []) lost [] fresh_zero refl one_zero
      (one_zero, (one_zero, tt))
      ((λ e. absurd (kept_zero e), kept_fresh), ((λ e. e, zero_fresh), tt))

dma_setup-Programmed_example :
    Programmed 2 64 589824 18432 DmaDir.dma_dir_read
      (dma_setup 2 64 589824 18432 DmaDir.dma_dir_read)
dma_setup-Programmed_example =
    dma_setup-Programmed 2 64 589824 18432 DmaDir.dma_dir_read (omega arith) (omega arith)
      (omega arith)
