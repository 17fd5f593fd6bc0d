-- ===== src/Tests/Chunks.antt =====
-- kernel/mm/slab.c at concrete inputs.
use minima.Base.{ℕ, ◌+◌, ◌/◌, ◌≡◌, some, [], ◌∷◌, arith, length, replicate, refl, page_size}
use minima.Pfa.{Pfa, page, pf_alloc, pop_frame}
use minima.Slab.{SlabMeta, Slabs, prepare_slab}
use minima.Slab.Alloc.{Stacked, prepare_slab-Stacked}

abbrev two_frames : Pfa
two_frames = record { phys_regions = []; reserved = []; freelist = 4096 ∷ 8192 ∷ []; cli_depth = 0 }

abbrev one_frame : Pfa
one_frame = record { phys_regions = []; reserved = []; freelist = 8192 ∷ []; cli_depth = 0 }

abbrev no_slabs : Slabs
no_slabs = record { slabs = replicate 10 []; wasted_bytes = replicate 10 0; pfa = two_frames }

abbrev no_purge : Pfa → ℕ × Pfa
no_purge s = (0, s)

gives_4096 : pf_alloc no_purge no_slabs.pfa ≡ some (page 4096, one_frame)
unfolding pf_alloc pop_frame
gives_4096 = refl

prepare_slab-Stacked_example :
    (m : SlabMeta) × (prepare_slab no_purge 64 1000 no_slabs
      ≡ some (m, record no_slabs { pfa = one_frame }))
    × (m.place ≡ 64)
    × (m.slab ≡ 4096)
    × Stacked 4096 1000 (4096 + page_size) m.freelist
    × (length m.freelist ≡ page_size / 1000)
    × (m.free_slots ≡ page_size / 1000)
prepare_slab-Stacked_example =
    prepare_slab-Stacked no_purge 64 1000 4096 no_slabs one_frame gives_4096 (omega arith)
      (omega arith)
