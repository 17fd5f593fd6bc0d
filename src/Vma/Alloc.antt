-- ===== src/Vma/Alloc.antt =====
-- kernel/mm/vma.c, `vmalloc`, `vm_unmap` and `vmfree`: the ranges and the page tables together. That
-- interrupts are off in vmalloc, the flush of the TLB and the post to the task that defragments are
-- left out.
use minima.Base.{
  ℕ, zero, suc, ◌+◌, ◌-◌, ◌*◌, ◌/◌, ◌^◌, ◌≤◌, ◌<◌, ◌≡◌, Bool, true, ◌&&◌, Option, none, some, List,
  [], ◌∷◌, ◌==◌, ltb, if◌then◌else◌, add32, page_size, prepend, remove_at, length, arith, inl, inr,
  Option-cases, All, ap, ◌∙◌,
}
use minima.Vfs.{set_at}
use minima.Vma.{Vma, Space, find_space, page_round_up}
use minima.Vma.Ranges.{Ordered}
use minima.Vma.Find.{Found, find_space-Found, find_space-none}
use minima.Vma.Paging.{
  Paging, va_pd_idx, va_pt_idx, is_present, frame_of, vm_map, get_physical_address,
}
use minima.Vma.Tables.{IsPaging}
use minima.Vma.Maps.{vm_map-Grows}

-- `vmalloc`, from what `find_space` hands out.
abbrev map_found : Paging → Option (Vma × Space) → Option (ℕ × Space × Paging)
map_found p none = none
map_found p (some (vma, s')) = elim (vm_map p vma) [
  | none ↦ none
  | some p' ↦ some (vma.start, s', p')
]

unfoldable pub vmalloc : Space → Paging → ℕ → Option (ℕ × Space × Paging)
vmalloc s p bytes = map_found p (find_space s (page_round_up bytes / page_size))

-- `pf_free`, which puts the frame in front; the link that it writes into the frame is left out.
abbrev pub give_back : Paging → ℕ → Paging
give_back p f = record p { free = f ∷ p.free }

-- The body of the first loop of `vm_unmap`; none is a failed assertion.
unfoldable pub unmap_page : Paging → ℕ → Option Paging
unmap_page p va =
    let t = frame_of (p.page_directory (va_pd_idx va)) in
    let pte = p.page_table t (va_pt_idx va) in
    if is_present (p.page_directory (va_pd_idx va)) && is_present pte
    then some (record (give_back p (frame_of pte)) {
      page_table = set_at p.page_table t (set_at (p.page_table t) (va_pt_idx va) 0);
    })
    else none

unfoldable pub unmap_loop : ℕ → ℕ → Paging → ℕ → Option Paging
unmap_loop zero end p va = none
unmap_loop (suc fuel) end p va =
    if ltb va end
    then elim (unmap_page p va) [
      | none ↦ none
      | some p' ↦ unmap_loop fuel end p' (add32 va page_size)
    ]
    else some p

-- The first entries of a table are all 0.
unfoldable pub is_empty : ℕ → (ℕ → ℕ) → Bool
is_empty zero table = true
is_empty (suc n) table = is_empty n table && table n == 0

-- The sweep of the empty page tables, from one on, so many.
unfoldable pub sweep : ℕ → Paging → ℕ → Paging
sweep zero p i = p
sweep (suc n) p i =
    let t = frame_of (p.page_directory i) in
    let swept = record (give_back p t) { page_directory = set_at p.page_directory i 2 } in
    sweep n (if is_empty 1024 (p.page_table t) then swept else p) (suc i)

unfoldable pub vm_unmap : Paging → Vma → Option Paging
vm_unmap p vm =
    let end = add32 vm.start vm.size in
    elim (unmap_loop (suc (vm.size / page_size)) end p vm.start) [
      | none ↦ none
      | some p' ↦ some (sweep (va_pd_idx end - va_pd_idx vm.start) p' (va_pd_idx vm.start))
    ]

-- the first range that starts at the address, and its position
unfoldable pub find_area : ℕ → List Vma → ℕ → Option (ℕ × Vma)
find_area ptr [] i = none
find_area ptr (area ∷ l) i = if area.start == ptr then some (i, area) else find_area ptr l (suc i)

-- None is a panic or a failed assertion.
unfoldable pub vmfree : Space → Paging → ℕ → Option (Space × Paging)
vmfree s p ptr = elim (find_area ptr s.in_use 0) [
  | none ↦ none
  | some (i, a) ↦ elim (vm_unmap p a) [
    | none ↦ none
    | some p' ↦ some (record s { in_use = remove_at s.in_use i; queue = prepend a s.queue }, p')
  ]
]

-- In an ordered free list with a range that is large enough, and with two free frames for every
-- page (aligned, all different, none of them a page table in use, and the last entry of the
-- directory present), vmalloc of one or more bytes returns. The result is the page-aligned start of
-- a range that find_space has taken out of the free list; every byte asked for then has a physical
-- address, and every address that had one before keeps it.
pub vmalloc-find_space :
    (low : ℕ) (s : Space) (p : Paging) (bytes n : ℕ)
    → Ordered low s.freelist
    → IsPaging p
    → is_present (p.page_directory 1023) ≡ true
    → 0 < bytes
    → bytes + page_size < 2 ^ 32
    → n ≡ (bytes + 4095) / 4096
    → (All (λ (a : Vma). a.size < n * page_size) s.freelist → ⊥)
    → 2 * n ≤ length p.free
    → (vma : Vma) × (s' : Space) × (p' : Paging) × (vmalloc s p bytes ≡ some (vma.start, s', p'))
      × Found low s n vma s'
      × IsPaging p'
      × ((va q : ℕ) → get_physical_address p va ≡ some q → get_physical_address p' va ≡ some q)
      × ((i : ℕ) → i < bytes → (q : ℕ) × (get_physical_address p' (vma.start + i) ≡ some q))
unfolding vmalloc
vmalloc-find_space low s p bytes n o ok last pos small count fits room =
    let pages : page_round_up bytes / page_size ≡ n = omega (arith, small, count) in
    let small' : n * page_size < 2 ^ 32 = omega (arith, small, count) in
    elim (Option-cases (find_space s n)) [
      | inl e ↦ absurd (fits ((find_space-none s n small').0 e))
      | inr ((vma, s'), e) ↦
          let found = find_space-Found low s n o (omega (arith, count, pos)) small' e in
          let (p', mapped, valid, keeps, maps) =
            vm_map-Grows p vma n ok last found.range.aligned found.exact found.range.no_wrap room in
          (
            vma,
            s',
            p',
            ap (λ m. map_found p (find_space s m)) pages
                ∙ ap (map_found p) e
                ∙ ap (λ o. elim o [ none ↦ none | some p' ↦ some (vma.start, s', p') ]) mapped,
            found,
            valid,
            keeps,
            λ i h. maps (vma.start + i) (omega arith) (omega (arith, count, found.exact, h)),
          )
    ]
