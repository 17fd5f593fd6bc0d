-- ===== src/Pfa.antt =====
-- kernel/mm/pfa.c: the page frame allocator. Names of regions serve only its messages and are left
-- out. `s_next_region` and `s_next_reserved` are the lengths of the two lists of regions.
pub mod Regions
pub mod Frames
use minima.Base.{
  ℕ, zero, suc, ◌+◌, ◌-◌, ◌*◌, ◌%◌, Bool, true, false, ◌&&◌, ◌||◌, Option, none, some, List, [],
  ◌∷◌, ltb, leb, ◌==◌, if◌then◌else◌, length, page_size, add32, mul32, prepend,
}

-- `struct region` and `struct phys_region`
pub record Region : Type 0 where
  pub start : ℕ
  pub pages : ℕ

pub record PhysRegion : Type 0 where
  pub r : Region
  pub reserved : ℕ
  pub flags : ℕ

-- `phys_regions`, `s_reserved`, `page_freelist` (the addresses of the free frames, the head
-- first), and the `cli_depth` of the running task, which `pf_alloc` changes.
pub record Pfa : Type 0 where
  pub phys_regions : List PhysRegion
  pub reserved : List Region
  pub freelist : List ℕ
  pub cli_depth : ℕ

abbrev pub max_phys_regions : ℕ
max_phys_regions = 8

abbrev pub max_resvd_regions : ℕ
max_resvd_regions = 8

unfoldable pub is_reserved : List Region → ℕ → Bool
is_reserved [] p = false
is_reserved (r ∷ rs) p = (leb r.start p && leb p (add32 r.start r.pages)) || is_reserved rs p

unfoldable pub region_overlaps : Region → ℕ → ℕ → Bool
region_overlaps r start pages =
    let reg_end = add32 r.start r.pages in
    let end = add32 start pages in
    if leb r.start start && ltb start reg_end then true else leb r.start end && ltb end reg_end

unfoldable pub any_overlaps : List Region → ℕ → ℕ → Bool
unfolding region_overlaps
any_overlaps [] start pages = false
any_overlaps (r ∷ rs) start pages = region_overlaps r start pages || any_overlaps rs start pages

-- Its result and the new state; `none` is the panic on an overlap.
unfoldable pub register_reserved_region : Pfa → ℕ → ℕ → Option (ℕ × Pfa)
unfolding any_overlaps
register_reserved_region s start pages =
    if leb max_resvd_regions (length s.reserved)
    then some (1, s)
    else if any_overlaps s.reserved start pages
    then none
    else some
        (0, record s { reserved = prepend (record { start = start; pages = pages }) s.reserved })

unfoldable pub register_region : Pfa → ℕ → ℕ → ℕ → ℕ × Pfa
register_region s start pages flags =
    if leb max_phys_regions (length s.phys_regions) then (1, s) else (
      0,
      record s {
        phys_regions =
            prepend
              (record { r = record { start = start; pages = pages }; reserved = 0; flags = flags })
              s.phys_regions;
      },
    )

-- `pf_free` when no other task touches the list (`Frames` has the steps of the general case)
unfoldable pub pf_free : ℕ → List ℕ → List ℕ
pf_free page freelist = page ∷ freelist

-- The loop of `map_phys_region` from page `p` on, with the pages left: `r->reserved` and the list.
-- A page is known by the address at which it is mapped.
unfoldable pub map_pages : ℕ → List Region → ℕ → ℕ → ℕ × List ℕ → ℕ × List ℕ
map_pages pfa_virt_offset resvd zero p acc = acc
map_pages pfa_virt_offset resvd (suc n) p (count, freelist) =
    map_pages pfa_virt_offset resvd n (suc p) (
      if is_reserved resvd p
      then (suc count, freelist)
      else (count, pf_free (add32 (mul32 p page_size) pfa_virt_offset) freelist))

-- `map_phys_region`; the address of a page is a multiple of the size of a page, so the assertion on it
-- is left out, if PFA_VIRT_OFFSET is one, and `r->reserved` does not wrap before the page numbers do.
unfoldable pub map_phys_region : ℕ → List Region → PhysRegion → List ℕ → PhysRegion × List ℕ
unfolding map_pages
map_phys_region pfa_virt_offset resvd region freelist =
    let (count, freelist') =
      map_pages pfa_virt_offset resvd (add32 region.r.start region.r.pages - region.r.start)
        region.r.start (region.reserved, freelist) in
    (record region { reserved = count }, freelist')

-- `PHYS_REGION_IGNORE` is bit 0 of the flags.
unfoldable pub map_phys_regions :
    ℕ → List Region → List PhysRegion → List ℕ → List PhysRegion × List ℕ
unfolding map_phys_region
map_phys_regions pfa_virt_offset resvd [] freelist = ([], freelist)
map_phys_regions pfa_virt_offset resvd (region ∷ regions) freelist =
    let (region', freelist') =
      if region.flags % 2 == 0
      then map_phys_region pfa_virt_offset resvd region freelist
      else (region, freelist) in
    let (regions', freelist'') = map_phys_regions pfa_virt_offset resvd regions freelist' in
    (region' ∷ regions', freelist'')

-- What `pf_alloc` returns, and the two ways in which it does not.
pub data Page : Type 0 where
  page : ℕ → Page
  null : Page

-- `pf_alloc` when no other task touches the list. `purge` is `purgeable_purge(PAGE_SIZE)`: the bytes
-- that it gave back, and the state that it left. `none` is the failed assertion.
module _ (purge : Pfa → ℕ × Pfa) where
  unfoldable pub pop_frame : Pfa → Option (Page × Pfa)
  pop_frame s = elim s.freelist [
    | [] ↦ none
    | frame ∷ rest ↦ some (page frame, record s { freelist = rest })
  ]

  unfoldable pub pf_alloc : Pfa → Option (Page × Pfa)
  unfolding pop_frame
  pf_alloc s = elim s.freelist [
    | frame ∷ rest ↦ pop_frame s
    | [] ↦
        let (purged, s') = purge (record s { cli_depth = s.cli_depth + 1 }) in
        if ltb purged page_size then some (null, s') else elim s'.freelist [
          | [] ↦ none
          | frame ∷ rest ↦ pop_frame (record s' { cli_depth = s'.cli_depth - 1 })
        ]
  ]
