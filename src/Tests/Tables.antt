-- ===== src/Tests/Tables.antt =====
-- kernel/mm/vma.c, the page tables, at concrete inputs: two free frames and one page to map.
use minima.Base.{
  ℕ, ◌+◌, ◌≤◌, ◌<◌, ◌≡◌, ◌≢◌, sym, ◌∙◌, refl, some, none, true, [], ◌∷◌, arith, ◌==◌, if◌then◌else◌,
  inl, inr, Bool-cases,
}
use minima.Vma.{Vma, Space, find_space, scan_fit, take_fit, vma_split, take_first, take_smaller}
use minima.Vma.Ranges.{Ordered}
use minima.Vma.Find.{Found}
use minima.Vma.Alloc.{
  vmalloc, vmfree, find_area, vm_unmap, unmap_loop, unmap_page, sweep, vmalloc-find_space,
}
use minima.Vma.Paging.{
  Paging, get_physical_address, vm_map, map_loop, map_page, ensure_table, ensure_page, zalloc,
  protect_page, protect_loop, mprotect, frame_of,
}
use minima.Vma.Tables.{IsPaging}
use minima.Vma.Maps.{vm_map-Grows}

-- Only the last entry of the directory is present.
abbrev empty : Paging
empty = record {
  page_directory = λ i. if i == 1023 then 1048579 else 0;
  page_table = λ f j. 0;
  free = 4096 ∷ 8192 ∷ [];
}

abbrev one_page : Vma
one_page = record { start = 4096; size = 4096 }

frame_of-empty : (i f : ℕ) → f ≤ 8192 → 0 < f → frame_of (if i == 1023 then 1048579 else 0) ≢ f
frame_of-empty i f small some_frame e = elim (Bool-cases (i == 1023)) [
  | inl last ↦
      let at_last : frame_of 1048579 ≡ f = sym (rw last refl) ∙ e in
      absurd (omega (arith, at_last, small))
  | inr other ↦
      let at_other : frame_of 0 ≡ f = sym (rw other refl) ∙ e in
      absurd (omega (arith, at_other, some_frame))
]

empty-IsPaging : IsPaging empty
empty-IsPaging = record {
  tables = λ i h. (
    frame_of-empty i 4096 (omega arith) (omega arith),
    (frame_of-empty i 8192 (omega arith) (omega arith), tt),
  );
  apart = ((λ e. absurd (omega (arith, e)), tt), (tt, tt));
  aligned = (omega arith, (omega arith, tt));
}

vm_map-Grows_example :
    (s' : Paging) × (vm_map empty one_page ≡ some s')
    × IsPaging s'
    × ((va p : ℕ) → get_physical_address empty va ≡ some p → get_physical_address s' va ≡ some p)
    × ((va : ℕ) → 4096 ≤ va → va < 4096 + 4096 → (p : ℕ) × (get_physical_address s' va ≡ some p))
vm_map-Grows_example =
    vm_map-Grows empty one_page 1 empty-IsPaging refl refl refl (omega arith) (omega arith)

-- Two pages of one table: a call of mprotect on the first with PROT_NONE takes the second away too.
abbrev two_pages : Paging
two_pages = record {
  page_directory = λ i. if i == 0 then 12291 else 1048579;
  page_table = λ f j. if j == 1 then 4099 else 8195;
  free = [];
}

mapped_before : get_physical_address two_pages 8192 ≡ some 8192
unfolding get_physical_address
mapped_before = refl

unmapped_after :
    (s' : Paging) × (mprotect two_pages 4096 4096 0 ≡ some (true, s'))
    × (get_physical_address s' 8192 ≡ none)
unfolding get_physical_address mprotect protect_loop protect_page
unmapped_after = (_, refl, refl)

abbrev one_range : Space
one_range = record { freelist = record { start = 4096; size = 8192 } ∷ []; in_use = []; queue = [] }

one_range-Ordered : Ordered 0 one_range.freelist
one_range-Ordered = (
  omega arith,
  record {
    aligned = omega arith;
    whole = omega arith;
    some_page = omega arith;
    no_wrap = omega arith;
  },
  tt,
)

vmalloc-find_space_example :
    (vma : Vma) × (s' : Space) × (p' : Paging) × (vmalloc one_range empty 100
      ≡ some (vma.start, s', p'))
    × Found 0 one_range 1 vma s'
    × IsPaging p'
    × ((va q : ℕ) → get_physical_address empty va ≡ some q → get_physical_address p' va ≡ some q)
    × ((i : ℕ) → i < 100 → (q : ℕ) × (get_physical_address p' (vma.start + i) ≡ some q))
vmalloc-find_space_example =
    vmalloc-find_space 0 one_range empty 100 1 one_range-Ordered empty-IsPaging refl (omega arith)
      (omega arith) refl (λ all. absurd (omega (arith, all.0))) (omega arith)

-- A page that is given back has no physical address any more, but its page table stays.
vmfree_after_vmalloc :
    (s' s'' : Space) × (p' p'' : Paging) × (vmalloc one_range empty 100 ≡ some (4096, s', p'))
    × (vmfree s' p' 4096 ≡ some (s'', p''))
    × (get_physical_address p'' 4096 ≡ none)
    × (p''.free ≡ 8192 ∷ [])
    × (s''.queue ≡ record { start = 4096; size = 4096 } ∷ [])
unfolding vmalloc vmfree find_area vm_unmap unmap_loop unmap_page sweep find_space scan_fit take_fit
    vma_split take_first take_smaller vm_map map_loop map_page ensure_table ensure_page zalloc
    get_physical_address
vmfree_after_vmalloc = (_, _, _, _, refl, refl, refl, refl, refl)
