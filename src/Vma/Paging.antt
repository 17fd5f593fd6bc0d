-- ===== src/Vma/Paging.antt =====
-- kernel/mm/vma.c, kernel/include/mm/vma.h: the page directory and the page tables. A page table is
-- named by the physical address of its frame; that the kernel reaches frames at PFA_VIRT_OFFSET cancels
-- out. The flush of the TLB is left out.
use minima.Base.{
  ℕ, zero, suc, ◌+◌, ◌*◌, ◌/◌, ◌%◌, Bool, true, false, not, ◌&&◌, Option, none, some, List, [], ◌∷◌,
  ◌==◌, ltb, if◌then◌else◌, add32, page_size,
}
use minima.Vma.{Vma}
use minima.Vfs.{set_at}

-- `page_directory`, the entries of the page tables, and the physical addresses of the free frames.
pub record Paging : Type 0 where
  pub page_directory : ℕ → ℕ
  pub page_table : ℕ → ℕ → ℕ
  pub free : List ℕ

-- `VA_PD_IDX`, `VA_PT_IDX` and `VA_PG_OFF` of a 32-bit address
abbrev pub va_pd_idx : ℕ → ℕ
va_pd_idx va = va / 4194304

abbrev pub va_pt_idx : ℕ → ℕ
va_pt_idx va = va / 4096 % 1024

abbrev pub va_pg_off : ℕ → ℕ
va_pg_off va = va % 4096

-- `entry & PTE_PRESENT` and `entry & ~0xFFF`
abbrev pub is_present : ℕ → Bool
is_present entry = entry % 2 == 1

abbrev pub frame_of : ℕ → ℕ
frame_of entry = entry / 4096 * 4096

-- The entry that maps a page, where it is mapped; none is a panic.
abbrev pub pte_of : Paging → ℕ → ℕ → Option ℕ
pte_of s i j =
    let pte = s.page_table (frame_of (s.page_directory i)) j in
    if is_present (s.page_directory 1023) && is_present (s.page_directory i) && is_present pte
    then some pte
    else none

unfoldable pub get_physical_address : Paging → ℕ → Option ℕ
get_physical_address s virt = elim (pte_of s (va_pd_idx virt) (va_pt_idx virt)) [
  | none ↦ none
  | some pte ↦ some (frame_of pte + va_pg_off virt)
]

-- `pf_zalloc`; none is a want of frames, where `vm_map` goes on with the null page. The entry `frame | PTE_WRITABLE | PTE_PRESENT` of an aligned
-- frame is `frame + 3`.
unfoldable pub zalloc : Paging → Option (ℕ × Paging)
zalloc s = elim s.free [
  | [] ↦ none
  | f ∷ free ↦ some (f, record s { page_table = set_at s.page_table f (λ i. 0); free = free })
]

-- The two halves of the body of `vm_map`.
unfoldable pub ensure_table : Paging → ℕ → Option Paging
ensure_table s i = if is_present (s.page_directory i) then some s else elim (zalloc s) [
  | none ↦ none
  | some (f, s') ↦ some (record s' { page_directory = set_at s'.page_directory i (f + 3) })
]

unfoldable pub ensure_page : Paging → ℕ → ℕ → Option Paging
ensure_page s i j =
    let t = frame_of (s.page_directory i) in
    if is_present (s.page_table t j) then some s else elim (zalloc s) [
      | none ↦ none
      | some (f, s') ↦
          some
            (record s' { page_table = set_at s'.page_table t (set_at (s'.page_table t) j (f + 3)) })
    ]

unfoldable pub map_page : Paging → ℕ → Option Paging
map_page s va = elim (ensure_table s (va_pd_idx va)) [
  | none ↦ none
  | some s' ↦ ensure_page s' (va_pd_idx va) (va_pt_idx va)
]

-- The loop, with its rounds left.
unfoldable pub map_loop : ℕ → ℕ → Paging → ℕ → Option Paging
map_loop zero end s va = none
map_loop (suc fuel) end s va =
    if ltb va end
    then elim (map_page s va) [ none ↦ none | some s' ↦ map_loop fuel end s' (add32 va page_size) ]
    else some s

unfoldable pub vm_map : Paging → Vma → Option Paging
vm_map s vm = map_loop (suc (vm.size / page_size)) (add32 vm.start vm.size) s vm.start

-- The protection bits of a page or of its table, `PROT_READ`, `PROT_WRITE` and `PROT_USR`, whose
-- value 3 holds the bits of the two others.
abbrev pub flags_of : ℕ → ℕ
flags_of prot =
    (if prot % 2 == 1 then 1 else 0)
    + (if prot / 2 % 2 == 1 then 2 else 0)
    + (if prot % 4 == 0 then 0 else 4)

-- The body of the loop of `mprotect`: false is its result -1, with the changes made before it.
unfoldable pub protect_page : Paging → ℕ → ℕ → Bool × Paging
protect_page s prot va =
    let i = va_pd_idx va in
    let j = va_pt_idx va in
    let t = frame_of (s.page_directory i) in
    let pde = t + flags_of prot in
    let pte = s.page_table t j in
    let new_pte = frame_of pte + flags_of prot in
    let s' = record s { page_directory = set_at s.page_directory i pde } in
    let s'' = record s' {
      page_table = set_at s'.page_table t (set_at (s'.page_table t) j new_pte);
    } in
    if not (is_present (s.page_directory i))
    then (false, s)
    else if pde == 0
    then (false, s')
    else if not (is_present pte) && (prot / 2 % 2 == 1)
    then (false, s')
    else if new_pte == 0
    then (false, s'')
    else (true, s'')

-- None where the rounds run out.
unfoldable pub protect_loop : ℕ → ℕ → ℕ → Paging → ℕ → Option (Bool × Paging)
protect_loop zero prot end s va = none
protect_loop (suc fuel) prot end s va =
    let (done, s') = protect_page s prot va in
    let rest = protect_loop fuel prot end s' (add32 va page_size) in
    if not (ltb va end) then some (true, s) else if done then rest else some (false, s')

unfoldable pub mprotect : Paging → ℕ → ℕ → ℕ → Option (Bool × Paging)
mprotect s addr len prot = protect_loop (len / page_size + 2) prot (add32 addr len) s addr
