-- ===== src/Slab.antt =====
-- kernel/mm/slab.c: pages cut into chunks of ten sizes. A free list of chunks is the sequence of
-- their addresses, the head first; the chain itself lies in the chunks, whose contents are not part
-- of this state. `s_sem_slab` keeps the calls apart, so each runs as a whole.
pub mod Sizes
pub mod Alloc
use minima.Base.{
  ℕ, zero, suc, ◌+◌, ◌-◌, ◌*◌, ◌/◌, ◌%◌, ◌^◌, Bool, true, false, not, ◌&&◌, Option, none, some,
  List, [], ◌∷◌, ltb, ◌==◌, if◌then◌else◌, page_size, add32, sub32, mul32, prepend, get_or, set,
  remove_at,
}
use minima.Pfa.{Pfa, Page, page, null, pf_alloc, pf_free}

-- `chunk_sizes`
abbrev pub chunk_sizes : List ℕ
chunk_sizes = 8 ∷ 16 ∷ 32 ∷ 64 ∷ 128 ∷ 256 ∷ 512 ∷ 1024 ∷ 2048 ∷ 4096 ∷ []

-- `struct slab_meta`, with the address that it has itself
pub record SlabMeta : Type 0 where
  pub place : ℕ
  pub slab : ℕ
  pub freelist : List ℕ
  pub free_slots : ℕ

-- `sizeof(struct slab_meta)`
abbrev pub meta_size : ℕ
meta_size = 20

-- `slabs`, `wasted_bytes`, and the page frame allocator
pub record Slabs : Type 0 where
  pub slabs : List (List SlabMeta)
  pub wasted_bytes : List ℕ
  pub pfa : Pfa

-- The loop of `round_up_pow2`; `none` is that the fuel runs out.
unfoldable pub pow_loop : ℕ → ℕ → ℕ → Option ℕ
pow_loop zero pow v = none
pow_loop (suc fuel) pow v =
    let next = pow_loop fuel (mul32 pow 2) v in if ltb pow v then next else some pow

unfoldable pub round_up_pow2 : ℕ → ℕ → Option ℕ
unfolding pow_loop
round_up_pow2 fuel v = pow_loop fuel 1 v

-- The switch of `size_idx`.
abbrev pub size_of_pow : ℕ → ℕ
size_of_pow rounded =
    if rounded == 8
    then 0
    else if rounded == 16
    then 1
    else if rounded == 32
    then 2
    else if rounded == 64
    then 3
    else if rounded == 128
    then 4
    else if rounded == 256
    then 5
    else if rounded == 512
    then 6
    else if rounded == 1024
    then 7
    else if rounded == 2048
    then 8
    else 9

-- enough fuel for every argument up to 2 ^ 31
abbrev pub pow_fuel : ℕ
pow_fuel = 33

unfoldable pub size_idx : ℕ → Option ℕ
unfolding round_up_pow2
size_idx bytes = elim (round_up_pow2 pow_fuel bytes) [ none ↦ none | some p ↦ some (size_of_pow p) ]

-- `free_slots` is a `uint16_t`.
unfoldable pub chunk_put : ℕ → SlabMeta → SlabMeta
chunk_put chunk m = record m {
  freelist = chunk ∷ m.freelist;
  free_slots = (m.free_slots + 1) % 2 ^ 16;
}

-- `none` is a read through `NULL`.
unfoldable pub chunk_get : SlabMeta → Option (ℕ × SlabMeta)
chunk_get m = elim m.freelist [
  | [] ↦ none
  | chunk ∷ rest ↦
      some (chunk, record m { freelist = rest; free_slots = (m.free_slots + 2 ^ 16 - 1) % 2 ^ 16 })
]

-- The loop of `prepare_slab` from the chunk `i` on, with the number of chunks left.
unfoldable pub put_chunks : ℕ → ℕ → ℕ → SlabMeta → SlabMeta
unfolding chunk_put
put_chunks zero slot_size i m = m
put_chunks (suc n) slot_size i m =
    put_chunks n slot_size (suc i) (chunk_put (add32 m.slab (mul32 i slot_size)) m)

-- What the loop over the slabs of a size comes to: the slab that a new one for the allocator's own
-- use is taken from, a slab with a free chunk, or none.
pub data Choice : Type 0 where
  eager : ℕ → SlabMeta → Choice
  plain : ℕ → SlabMeta → Choice
  no_slot : Choice

abbrev pub is_last : List ℕ → Bool
is_last [] = false
is_last (c ∷ []) = true
is_last (c ∷ c' ∷ l) = false

unfoldable pub find_slab : ℕ → List SlabMeta → ℕ → Choice
find_slab slot_size [] i = no_slot
find_slab slot_size (m ∷ ms) i =
    let rest = find_slab slot_size ms (suc i) in
    if slot_size == 32 && is_last m.freelist
    then eager i m
    else if not (m.free_slots == 0)
    then plain i m
    else rest

abbrev pub slabs_of : ℕ → Slabs → List SlabMeta
slabs_of size s = get_or s.slabs size []

abbrev pub with_slabs : ℕ → List SlabMeta → Slabs → Slabs
with_slabs size l s = record s { slabs = set s.slabs size l }

abbrev pub waste : ℕ → ℕ → Slabs → Slabs
waste size bytes s = record s {
  wasted_bytes =
      set s.wasted_bytes size
        (add32 (get_or s.wasted_bytes size 0) (sub32 (get_or chunk_sizes size 0) bytes));
}

-- `purge` is what `pf_alloc` falls back on. `none` is an access through `NULL`, a failed assertion,
-- or a recursion deeper than the fuel.
module _ (purge : Pfa → ℕ × Pfa) where
  -- `prepare_slab` of a meta at an address
  unfoldable pub prepare_slab : ℕ → ℕ → Slabs → Option (SlabMeta × Slabs)
  unfolding put_chunks
  prepare_slab place slot_size s = elim (pf_alloc purge s.pfa) [
    | none ↦ none
    | some (null, pfa') ↦ none
    | some (page frame, pfa') ↦ some (
      put_chunks (page_size / slot_size) slot_size 0
          (record { place = place; slab = frame; freelist = []; free_slots = 0 }),
      record s { pfa = pfa' },
    )
  ]

  -- A fresh slab enters the list of its size, and its first chunk is handed out.
  unfoldable pub start_slab : ℕ → ℕ → ℕ → Slabs → Option (ℕ × Slabs)
  start_slab size slot_size place s = elim (prepare_slab place slot_size s) [
    | none ↦ none
    | some (m, s') ↦ elim (chunk_get m) [
      | none ↦ none
      | some (chunk, m') ↦ some (chunk, with_slabs size (prepend m' (slabs_of size s')) s')
    ]
  ]

  unfoldable pub do_slab_alloc : ℕ → ℕ → Slabs → Option (ℕ × Slabs)
  do_slab_alloc zero bytes s = none
  do_slab_alloc (suc fuel) bytes s = elim (size_idx bytes) [
    | none ↦ none
    | some size ↦
        let slot_size = get_or chunk_sizes size 0 in
        let s1 = waste size bytes s in
        elim (find_slab slot_size (slabs_of size s1) 0) [
          | eager i m ↦ elim (chunk_get m) [
            | none ↦ none
            | some (place, m') ↦
                start_slab size slot_size place (with_slabs size (set (slabs_of size s1) i m') s1)
          ]
          | plain i m ↦ elim (chunk_get m) [
            | none ↦ none
            | some (chunk, m') ↦ some (chunk, with_slabs size (set (slabs_of size s1) i m') s1)
          ]
          | no_slot ↦ elim (do_slab_alloc fuel meta_size s1) [
            | none ↦ none
            | some (place, s2) ↦ start_slab size slot_size place s2
          ]
        ]
  ]

-- The two nested loops of `do_slab_free`: the size, the position and the slab of a chunk.
unfoldable pub find_owner : ℕ → List SlabMeta → ℕ → Option (ℕ × SlabMeta)
find_owner base [] i = none
find_owner base (m ∷ ms) i =
    let rest = find_owner base ms (suc i) in if m.slab == base then some (i, m) else rest

unfoldable pub find_size : ℕ → List (List SlabMeta) → ℕ → Option (ℕ × ℕ × SlabMeta)
unfolding find_owner
find_size base [] size = none
find_size base (l ∷ ls) size = elim (find_owner base l 0) [
  | some (i, m) ↦ some (size, i, m)
  | none ↦ find_size base ls (suc size)
]

-- `do_slab_free`; `none` is that the fuel runs out.
unfoldable pub do_slab_free : ℕ → ℕ → Slabs → Option Slabs
do_slab_free zero ptr s = none
do_slab_free (suc fuel) ptr s = elim (find_size (ptr / page_size * page_size) s.slabs 0) [
  | none ↦ some s
  | some (size, i, m) ↦
      let m' = chunk_put ptr m in
      let l = slabs_of size s in
      if m'.free_slots == page_size / get_or chunk_sizes size 0
      then do_slab_free fuel m.place (record (with_slabs size (remove_at l i) s) {
        pfa = record s.pfa { freelist = pf_free m.slab s.pfa.freelist };
      })
      else some (with_slabs size (set l i m') s)
]
