-- ===== src/Vma.antt =====
-- kernel/mm/vma.c: the ranges of kernel address space that are free, in use, or waiting to be
-- merged. A list of ranges is the sequence that its `v_ilist` holds; a pointer to a range that
-- stands in a list is its position there.
pub mod Ranges
pub mod Best
pub mod Paging
pub mod Tables
pub mod Mapped
pub mod Maps
pub mod Alloc
pub mod Split
pub mod Find
pub mod Insert
pub mod Merge
pub mod Defrag
use minima.Base.{
  ℕ, zero, suc, ◌+◌, ◌-◌, ◌*◌, ◌/◌, ◌%◌, ◌^◌, Bool, true, false, not, ◌&&◌, ◌||◌, Option, none,
  some, List, [], ◌∷◌, ltb, leb, ◌==◌, if◌then◌else◌, page_size, mb, add32, sub32, mul32, prepend,
  length, remove_at,
}
use minima.IList
use minima.IList.{Sign, minus, nought, plus}

-- `struct vma`
pub record Vma : Type 0 where
  pub start : ℕ
  pub size : ℕ

-- `vma_freelist`, `vma_list` and `defrag_queue`
pub record Space : Type 0 where
  pub freelist : List Vma
  pub in_use : List Vma
  pub queue : List Vma

-- `PAGE_ROUND_UP` and `PAGE_ROUND_DN` (the mask `~(PAGE_SIZE - 1)` clears the low twelve bits)
abbrev pub page_round_dn : ℕ → ℕ
page_round_dn x = x / page_size * page_size

abbrev pub page_round_up : ℕ → ℕ
page_round_up x = page_round_dn (sub32 (add32 x page_size) 1)

-- `VIRT_OFFSET` and `PFA_VIRT_OFFSET` are set by the build: they are arguments here.
unfoldable pub vma_init : (virt_offset pfa_virt_offset : ℕ) → Space
vma_init virt_offset pfa_virt_offset =
    let vma_start = page_round_up (add32 virt_offset (1 * mb)) in
    let vma_end = page_round_dn (sub32 pfa_virt_offset page_size) in
    record {
      freelist = record { start = vma_start; size = sub32 vma_end vma_start } ∷ [];
      in_use = [];
      queue = [];
    }

-- The new range, and what is left of the one that it is cut from.
unfoldable pub vma_split : Vma → ℕ → Vma × Vma
vma_split from pages = (
  record { start = from.start; size = mul32 pages page_size },
  record {
    start = add32 from.start (mul32 pages page_size);
    size = sub32 from.size (mul32 pages page_size);
  },
)

-- `assert_invariants`: false is a failed assertion.
unfoldable pub assert_invariants : Vma → Vma → Bool
assert_invariants a b =
    let a_s = a.start in
    let a_e = add32 a.start a.size in
    let b_s = b.start in
    let b_e = add32 b.start b.size in
    not (a.size == 0)
    && not (b.size == 0)
    && leb page_size a.size
    && leb page_size b.size
    && not (leb b_s a_s && ltb a_s b_e)
    && not (ltb b_s a_e && ltb a_e b_e)

-- `vma_merge`: its result, `*a` and `*into`. `none` is a failed assertion.
unfoldable pub vma_merge : Vma → Vma → Option (Bool × Vma × Vma)
vma_merge a into =
    if not (assert_invariants a into)
    then none
    else if add32 a.start a.size == into.start
    then some
        (true, record a { size = 0 }, record { start = a.start; size = add32 into.size a.size })
    else if a.start == add32 into.start into.size
    then some (
      true,
      record { start = add32 into.start (add32 into.size a.size); size = 0 },
      record into { size = add32 into.size a.size },
    )
    else some (false, a, into)

-- `vma_cmp`. Its three tests run one after the other; if none holds the result is not set.
unfoldable pub vma_cmp : Vma → Vma → Option Sign
vma_cmp lhs rhs =
    if leb (add32 rhs.start rhs.size) lhs.start
    then some plus
    else if add32 lhs.start lhs.size == rhs.start
    then some nought
    else if leb (add32 lhs.start lhs.size) rhs.start
    then some minus
    else none

-- The two tests of the loop of `find_space`; a candidate comes with its position.
abbrev pub Fit : Type 0
Fit = Option (ℕ × Vma)

unfoldable pub take_first : ℕ → ℕ × Vma → Fit → Fit
take_first bytes (i, area) none = if leb bytes area.size then some (i, area) else none
take_first bytes (i, area) (some fit) = some fit

unfoldable pub take_smaller : ℕ → ℕ × Vma → Fit → Fit
take_smaller bytes (i, area) none = none
take_smaller bytes (i, area) (some (j, fit)) =
    if ltb area.size fit.size && leb bytes area.size then some (i, area) else some (j, fit)

unfoldable pub scan_fit : ℕ → List Vma → ℕ → Fit → Fit
unfolding take_first take_smaller
scan_fit bytes [] i fit = fit
scan_fit bytes (area ∷ areas) i fit =
    scan_fit bytes areas (suc i) (take_smaller bytes (i, area) (take_first bytes (i, area) fit))

abbrev pub put_at {ℓ} : {A : Type ℓ} → List A → ℕ → A → List A
put_at [] i y = []
put_at (x ∷ xs) zero y = y ∷ xs
put_at (x ∷ xs) (suc i) y = x ∷ put_at xs i y

-- `find_space` once the range is chosen: it is cut, or leaves the free list whole.
unfoldable pub take_fit : Space → ℕ → ℕ → Vma → Vma × Space
take_fit s pages i fit =
    if ltb (mul32 pages page_size) fit.size
    then (
      (vma_split fit pages).0,
      record s {
        freelist = put_at s.freelist i (vma_split fit pages).1;
        in_use = prepend (vma_split fit pages).0 s.in_use;
      },
    )
    else (fit, record s { freelist = remove_at s.freelist i; in_use = prepend fit s.in_use })

-- `find_space`: the range handed out. `none` is the panic that no range is large enough.
unfoldable pub find_space : Space → ℕ → Option (Vma × Space)
find_space s pages = elim (scan_fit (mul32 pages page_size) s.freelist 0 none) [
  | none ↦ none
  | some (i, fit) ↦ some (take_fit s pages i fit)
]

-- The first loop of `do_defrag`: the queue goes into the free list, in order.
unfoldable pub insert_all : List Vma → List Vma → Option (List Vma)
unfolding vma_cmp IList.insert
insert_all [] free = some free
insert_all (a ∷ queue) free = elim (IList.insert vma_cmp a free) [
  | none ↦ none
  | some free' ↦ insert_all queue free'
]

-- One round of the second loop of `do_defrag` at `a`, with the ranges before it (the nearest
-- first) and those behind it: `a` joins a neighbour and leaves the list, or stays.
unfoldable pub join_left : List Vma → Vma → Option (Bool × List Vma)
join_left [] a = some (false, [])
join_left (lhs ∷ before) a = elim (vma_merge a lhs) [
  | none ↦ none
  | some (merged, _, lhs') ↦ some (merged, lhs' ∷ before)
]

unfoldable pub join_right : Vma → List Vma → Option (Bool × List Vma)
join_right a [] = some (false, [])
join_right a (rhs ∷ behind) = elim (vma_merge a rhs) [
  | none ↦ none
  | some (merged, _, rhs') ↦ some (merged, rhs' ∷ behind)
]

abbrev pub back_to_front : List Vma → List Vma → List Vma
back_to_front [] ys = ys
back_to_front (x ∷ xs) ys = back_to_front xs (x ∷ ys)

-- The second loop of `do_defrag`; the fuel is the length of the list.
unfoldable pub merge_all : ℕ → List Vma → List Vma → Option (List Vma)
merge_all zero before behind = some (back_to_front before behind)
merge_all (suc n) before [] = some (back_to_front before [])
merge_all (suc n) before (a ∷ behind) = elim (join_left before a) [
  | none ↦ none
  | some (true, before') ↦ merge_all n before' behind
  | some (false, _) ↦ elim (join_right a behind) [
    | none ↦ none
    | some (true, behind') ↦ merge_all n before behind'
    | some (false, _) ↦ merge_all n (a ∷ before) behind
  ]
]

-- `do_defrag`. `none` is a failed assertion or a comparison with no result.
unfoldable pub do_defrag : Space → Option Space
unfolding insert_all merge_all
do_defrag s = elim (insert_all s.queue s.freelist) [
  | none ↦ none
  | some free ↦ elim (merge_all (length free) [] free) [
    | none ↦ none
    | some merged ↦ some (record s { freelist = merged; queue = [] })
  ]
]
