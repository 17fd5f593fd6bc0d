-- ===== src/Vma/Maps.antt =====
-- kernel/mm/vma.c, `vm_map` as a whole, on what get_physical_address finds.
use mathlib.Core.Path.{subst}
use mathlib.Core.Option.{some-injective}
use minima.Base.{
  ℕ, zero, suc, ◌+◌, ◌-◌, ◌*◌, ◌/◌, ◌%◌, ◌^◌, ◌≤◌, ◌<◌, ◌≡◌, ◌≢◌, refl, sym, ap, ◌∙◌, Bool, true,
  false, ◌&&◌, Option, none, some, arith, ltb, length, add32, page_size, Bool-cases, inl, inr,
  lt→ltb,
}
use minima.Vma.{Vma}
use minima.Vma.Paging.{
  Paging, va_pd_idx, va_pt_idx, va_pg_off, is_present, frame_of, pte_of, get_physical_address,
  ensure_page, map_page, map_loop, vm_map,
}
use minima.Vma.Tables.{IsPaging, HasEntry, Grows, Grows-refl, Grows-trans}
use minima.Vma.Mapped.{ensure_table-Grows, ensure_page-Grows}

-- the entry for an address
abbrev Maps : Paging → ℕ → ℕ → Type 0
Maps s va pte = HasEntry s (va_pd_idx va) (va_pt_idx va) pte

map_page-Grows :
    (s : Paging) (va : ℕ)
    → IsPaging s
    → is_present (s.page_directory 1023) ≡ true
    → 2 ≤ length s.free
    → (s' : Paging) × (map_page s va ≡ some s')
      × Grows s s'
      × ((pte : ℕ) × Maps s' va pte)
      × (length s.free ≤ length s'.free + 2)
unfolding map_page
map_page-Grows s va ok last room =
    let i = va_pd_idx va in
    let j = va_pt_idx va in
    let (t, made, grows, table, left) = ensure_table-Grows s i ok (omega (arith, room)) in
    let (u, made', grows', entry, left') =
      ensure_page-Grows t i j grows.valid (grows.last last) table (omega (arith, room, left)) in
    (
      u,
      ap (λ o. elim o [ none ↦ none | some v ↦ ensure_page v i j ]) made ∙ made',
      Grows-trans s t u grows grows',
      entry,
      omega (arith, left, left'),
    )

-- The pages after the first one, and the first.
all_pages :
    (u : Paging) (va n : ℕ)
    → ((pte : ℕ) × Maps u va pte)
    → ((k : ℕ) → k < n → (pte : ℕ) × Maps u (va + 4096 + k * 4096) pte)
    → (k : ℕ) → k < suc n
    → (pte : ℕ) × Maps u (va + k * 4096) pte
all_pages u va n here rest zero h =
    let e : va ≡ va + 0 * 4096 = omega arith in subst (λ x. (pte : ℕ) × Maps u x pte) e here
all_pages u va n here rest (suc k) h =
    let e : va + 4096 + k * 4096 ≡ va + suc k * 4096 = omega arith in
    subst (λ x. (pte : ℕ) × Maps u x pte) e (rest k (omega arith))

map_loop-Grows :
    (n fuel end : ℕ) (s : Paging) (va : ℕ)
    → IsPaging s
    → is_present (s.page_directory 1023) ≡ true
    → va + n * 4096 ≡ end
    → end < 2 ^ 32
    → n < fuel
    → 2 * n ≤ length s.free
    → (s' : Paging) × (map_loop fuel end s va ≡ some s')
      × Grows s s'
      × ((k : ℕ) → k < n → (pte : ℕ) × Maps s' (va + k * 4096) pte)
unfolding map_loop
map_loop-Grows n zero end s va ok last place small fueled room = absurd (omega arith)
map_loop-Grows zero (suc fuel) end s va ok last place small fueled room =
    let over : ltb va end ≡ false = ground (arith, place) in
    (s, rw over refl, Grows-refl s ok, λ k h. absurd (omega arith))
map_loop-Grows (suc n) (suc fuel) end s va ok last place small fueled room =
    let more : ltb va end ≡ true = lt→ltb va end (omega (arith, place)) in
    let (t, made, grows, entry, left) = map_page-Grows s va ok last (omega (arith, room)) in
    let on : add32 va page_size ≡ va + 4096 = omega (arith, place, small) in
    let (u, made', grows', entries) =
      map_loop-Grows n fuel end t (va + 4096) grows.valid (grows.last last) (omega (arith, place))
        small (omega (arith, fueled)) (omega (arith, room, left)) in
    let (pte, maps) = entry in
    let here : (q : ℕ) × Maps u va q = (pte, grows'.keeps (va_pd_idx va) (va_pt_idx va) pte maps) in
    (
      u,
      rw more (
          ap (λ o. elim o [ none ↦ none | some v ↦ map_loop fuel end v (add32 va page_size) ]) made
          ∙ ap (map_loop fuel end t) on
          ∙ made'),
      Grows-trans s t u grows grows',
      all_pages u va n here entries,
    )

get_physical_address-Maps :
    (s : Paging) (va pte : ℕ)
    → Maps s va pte
    → get_physical_address s va ≡ some (frame_of pte + va_pg_off va)
unfolding get_physical_address
get_physical_address-Maps s va pte h =
    let e = s.page_table (frame_of (s.page_directory (va_pd_idx va))) (va_pt_idx va) in
    let there : is_present e ≡ true = ap is_present h.entry ∙ h.present in
    let found : pte_of s (va_pd_idx va) (va_pt_idx va) ≡ some pte =
      rw (h.last, h.table, there) (ap some h.entry) in
    ap (λ o. elim o [ none ↦ none | some x ↦ some (frame_of x + va_pg_off va) ]) found

none_is_not_some : {p : ℕ} → ◌≢◌ {A = Option ℕ} none (some p)
none_is_not_some e = cc

all_three : (a b c : Bool) → (a && b && c) ≡ true → (a ≡ true) × (b ≡ true) × (c ≡ true)
all_three true true true e = (refl, refl, refl)
all_three true true false e = absurd cc
all_three true false c e = absurd cc
all_three false b c e = absurd cc

Maps-of :
    (s : Paging) (va p : ℕ)
    → get_physical_address s va ≡ some p
    → (pte : ℕ) × Maps s va pte × (frame_of pte + va_pg_off va ≡ p)
unfolding get_physical_address
Maps-of s va p h =
    let i = va_pd_idx va in
    let e = s.page_table (frame_of (s.page_directory i)) (va_pt_idx va) in
    let put : Option ℕ → Option ℕ =
      λ o. elim o [ none ↦ none | some x ↦ some (frame_of x + va_pg_off va) ] in
    elim (Bool-cases
      (is_present (s.page_directory 1023) && is_present (s.page_directory i) && is_present e)) [
        | inr missing ↦
            let found : pte_of s i (va_pt_idx va) ≡ none = rw missing refl in
            absurd (none_is_not_some (sym (ap put found) ∙ h))
        | inl all ↦
            let found : pte_of s i (va_pt_idx va) ≡ some e = rw all refl in
            let (last, table, present) = all_three _ _ _ all in
            (
              e,
              record { last = last; table = table; entry = refl; present = present },
              some-injective _ _ (sym (ap put found) ∙ h),
            )
      ]

-- Where the free frames are aligned, all different and none of them a page table in use, the last
-- entry of the directory is present, and two frames are free for every page of a range of whole
-- pages below 4 GiB, vm_map of the range returns: every address of it then has a physical address,
-- every address that had one before keeps it, and the free frames are as they were required to be.
pub vm_map-Grows :
    (s : Paging) (vm : Vma) (n : ℕ)
    → IsPaging s
    → is_present (s.page_directory 1023) ≡ true
    → vm.start % 4096 ≡ 0
    → vm.size ≡ n * 4096
    → vm.start + vm.size < 2 ^ 32
    → 2 * n ≤ length s.free
    → (s' : Paging) × (vm_map s vm ≡ some s')
      × IsPaging s'
      × ((va p : ℕ) → get_physical_address s va ≡ some p → get_physical_address s' va ≡ some p)
      × ((va : ℕ)
          → vm.start ≤ va
          → va < vm.start + vm.size
          → (p : ℕ) × (get_physical_address s' va ≡ some p))
unfolding vm_map
vm_map-Grows s vm n ok last aligned whole small room =
    let end : add32 vm.start vm.size ≡ vm.start + n * 4096 = omega (arith, whole, small) in
    let rounds : n < suc (vm.size / page_size) = omega (arith, whole) in
    let (t, made, grows, entries) =
      map_loop-Grows n (suc (vm.size / page_size)) (add32 vm.start vm.size) s vm.start ok last
        (sym end) (omega (arith, whole, small)) rounds room in
    (
      t,
      made,
      grows.valid,
      λ va p h.
          let (pte, maps, is) = Maps-of s va p h in
          get_physical_address-Maps t va pte (grows.keeps (va_pd_idx va) (va_pt_idx va) pte maps)
          ∙ ap some is,
      λ va low high.
          let k = (va - vm.start) / 4096 in
          let page = vm.start + k * 4096 in
          let (pte, maps) = entries k (omega (arith, low, high, whole)) in
          let pd : va_pd_idx page ≡ va_pd_idx va = omega (arith, low, aligned) in
          let pt : va_pt_idx page ≡ va_pt_idx va = omega (arith, low, aligned) in
          let at_va : Maps t va pte =
            subst (λ i. HasEntry t i (va_pt_idx va) pte) pd
              (subst (λ j. HasEntry t (va_pd_idx page) j pte) pt maps) in
          (frame_of pte + va_pg_off va, get_physical_address-Maps t va pte at_va),
    )
