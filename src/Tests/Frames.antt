-- ===== src/Tests/Frames.antt =====
-- kernel/mm/pfa.c at concrete inputs.
use minima.Base.{ℕ, ◌+◌, ◌≡◌, refl, some, List, [], ◌∷◌, arith, length, if◌then◌else◌, ◌==◌}
use minima.Base.Counts.{count}
use minima.Pfa.{Region, PhysRegion, is_reserved, map_phys_region}
use minima.Pfa.Regions.{address, map_phys_region_lem}
use minima.Pfa.Frames.{Mem, alloc, free, alloc_swap, alloc_read, IsChain, alloc_swap_aba}

abbrev region : PhysRegion
region = record { r = record { start = 2; pages = 6 }; reserved = 0; flags = 0 }

abbrev resvd : List Region
resvd = record { start = 3; pages = 2 } ∷ []

map_phys_region_example :
    (count (address 4096 7) (map_phys_region 4096 resvd region []).1 ≡ 1)
    × ((map_phys_region 4096 resvd region []).0.reserved
          + length (map_phys_region 4096 resvd region []).1
        ≡ 6)
    × ((map_phys_region 4096 resvd region []).0.r ≡ region.r)
unfolding is_reserved
map_phys_region_example =
    map_phys_region_lem 4096 resvd region [] 7 (omega arith) (omega arith) (omega arith)

-- three frames, each of which leads to the next
abbrev next_frame : ℕ → ℕ
next_frame p = if p == 4096 then 8192 else if p == 8192 then 12288 else 0

abbrev frames : Mem
frames = record { page_freelist = 4096; next = next_frame }

frames-IsChain : IsChain frames.next frames.page_freelist (4096 ∷ 8192 ∷ 12288 ∷ [])
frames-IsChain = (refl, omega arith, (refl, omega arith, (refl, omega arith, refl)))

alloc_swap_aba_example :
    let m1 = (alloc frames).1 in
    let m2 = (alloc m1).1 in
    let m3 = (free m2 4096).1 in
    let (got, m4) = alloc_swap m3 (alloc_read frames) in
    ((alloc m1).0 ≡ some 8192) × (got ≡ some 4096) × ((alloc m4).0 ≡ some 8192)
alloc_swap_aba_example = alloc_swap_aba frames 4096 8192 (12288 ∷ []) frames-IsChain (omega arith)
