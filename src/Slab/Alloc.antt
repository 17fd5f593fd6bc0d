-- ===== src/Slab/Alloc.antt =====
-- kernel/mm/slab.c, `prepare_slab` and `do_slab_alloc`.
use native.Mathlib.Nat.{suc-mul, mul-le-mul_right, mod-eq_of_lt, div-mul-le_self, div-le_self}
use minima.Base.{
  ℕ, zero, suc, ◌+◌, ◌/◌, ◌%◌, page_size, ◌*◌, ◌^◌, ◌≤◌, ◌<◌, ◌≡◌, refl, ap, ◌∙◌, none, some, List,
  [], ◌∷◌, arith, length, add32, mul32, All, get_or,
}
use minima.Pfa.{Pfa, page, pf_alloc}
use minima.Slab.{
  SlabMeta, Slabs, prepare_slab, put_chunks, chunk_put, find_slab, no_slot, do_slab_alloc, size_idx,
  meta_size, chunk_sizes, slabs_of, waste, round_up_pow2, pow_loop,
}

-- Chunks below an address, from the highest down to the slab, none of which overlaps another.
abbrev pub Stacked : ℕ → ℕ → ℕ → List ℕ → Type 0
Stacked slab slot_size top [] = slab ≤ top
Stacked slab slot_size top (c ∷ l) = (c + slot_size ≤ top) × Stacked slab slot_size c l

put_chunks_step :
    (n slot_size i : ℕ) (m : SlabMeta)
    → m.slab + i * slot_size < 2 ^ 32
    → put_chunks (suc n) slot_size i m
      ≡ put_chunks n slot_size (suc i) (chunk_put (m.slab + i * slot_size) m)
unfolding put_chunks
put_chunks_step n slot_size i m fits =
    let chunk : add32 m.slab (mul32 i slot_size) ≡ m.slab + i * slot_size = grind arith in
    ap (λ c. put_chunks n slot_size (suc i) (chunk_put c m)) chunk

put_chunks-place : (n slot_size i : ℕ) (m : SlabMeta) → (put_chunks n slot_size i m).place ≡ m.place
unfolding put_chunks chunk_put
put_chunks-place zero slot_size i m = refl
put_chunks-place (suc n) slot_size i m = put_chunks-place n slot_size (suc i) _

put_chunks-Stacked :
    (n slot_size i : ℕ) (m : SlabMeta)
    → 0 < slot_size
    → m.slab + (i + n) * slot_size ≤ 2 ^ 32
    → m.free_slots + n < 2 ^ 16
    → Stacked m.slab slot_size (m.slab + i * slot_size) m.freelist
    → Stacked m.slab slot_size (m.slab + (i + n) * slot_size) (put_chunks n slot_size i m).freelist
      × ((put_chunks n slot_size i m).free_slots ≡ m.free_slots + n)
      × (length (put_chunks n slot_size i m).freelist ≡ length m.freelist + n)
      × ((put_chunks n slot_size i m).slab ≡ m.slab)
unfolding put_chunks chunk_put
put_chunks-Stacked zero slot_size i m pos fits counts st =
    let e : m.slab + (i + 0) * slot_size ≡ m.slab + i * slot_size =
      ap (λ j. m.slab + j * slot_size) (omega arith) in
    (rw e st, omega arith, omega arith, refl)
put_chunks-Stacked (suc n) slot_size i m pos fits counts st =
    let addr = m.slab + i * slot_size in
    let up : suc i * slot_size ≡ i * slot_size + slot_size = suc-mul i slot_size in
    let mono : suc i * slot_size ≤ (i + suc n) * slot_size =
      mul-le-mul_right slot_size (omega arith) in
    let more : i + suc n ≡ suc i + n = omega arith in
    let counted : (m.free_slots + 1) % 2 ^ 16 ≡ m.free_slots + 1 = mod-eq_of_lt (omega arith) in
    let rest =
      put_chunks-Stacked n slot_size (suc i) (chunk_put addr m) pos (rw (← more) fits)
        (omega (arith, counted)) (omega (arith, up), st) in
    let e = put_chunks_step n slot_size i m (omega (arith, mono, up)) in
    rw (e, more) (rest.0, rest.1 ∙ omega (arith, counted), rest.2 ∙ omega arith, rest.3)

Stacked-mono :
    (slab slot_size low top : ℕ) (l : List ℕ)
    → low ≤ top
    → Stacked slab slot_size low l
    → Stacked slab slot_size top l
Stacked-mono slab slot_size low top [] le st = omega arith
Stacked-mono slab slot_size low top (c ∷ l) le st = (omega (arith, st.0), st.1)

-- Where pf_alloc gives a page that ends at 2 ^ 32 at the latest, prepare_slab of a size of chunks
-- that is not 0 makes it a slab: its free list has as many chunks as fit into the page, which lie
-- in it one below the other without overlap, and it counts as many free slots.
pub prepare_slab-Stacked :
    (purge : Pfa → ℕ × Pfa) (place slot_size frame : ℕ) (s : Slabs) (pfa' : Pfa)
    → pf_alloc purge s.pfa ≡ some (page frame, pfa')
    → 0 < slot_size
    → frame + page_size ≤ 2 ^ 32
    → (m : SlabMeta) × (prepare_slab purge place slot_size s ≡ some (m, record s { pfa = pfa' }))
      × (m.place ≡ place)
      × (m.slab ≡ frame)
      × Stacked frame slot_size (frame + page_size) m.freelist
      × (length m.freelist ≡ page_size / slot_size)
      × (m.free_slots ≡ page_size / slot_size)
unfolding prepare_slab
prepare_slab-Stacked purge place slot_size frame s pfa' gives pos fits =
    let n = page_size / slot_size in
    let blank : SlabMeta = record { place = place; slab = frame; freelist = []; free_slots = 0 } in
    let cut : n * slot_size ≤ page_size = div-mul-le_self page_size slot_size in
    let few : n ≤ page_size = div-le_self page_size slot_size in
    let (stacked, counted, long, same) =
      put_chunks-Stacked n slot_size 0 blank pos (omega (arith, cut)) (omega (arith, few))
        (omega arith) in
    (
      put_chunks n slot_size 0 blank,
      rw (gives, prepare_slab) refl,
      put_chunks-place n slot_size 0 blank,
      same,
      Stacked-mono frame slot_size (frame + (0 + n) * slot_size) (frame + page_size)
          (put_chunks n slot_size 0 blank).freelist (omega (arith, cut)) stacked,
      omega (arith, long),
      omega (arith, counted),
    )

-- no free chunk
abbrev pub Full : SlabMeta → Type 0
Full m = (m.free_slots ≡ 0) × (m.freelist ≡ [])

find_slab-Full :
    (slot_size : ℕ) (l : List SlabMeta) (i : ℕ) → All Full l → find_slab slot_size l i ≡ no_slot
unfolding find_slab
find_slab-Full slot_size [] i h = refl
find_slab-Full slot_size (m ∷ l) i h =
    ground (arith, h.0.0, h.0.1, find_slab-Full slot_size l (suc i) h.1)

meta_idx : size_idx meta_size ≡ some 2
unfolding size_idx round_up_pow2 pow_loop
meta_idx = refl

-- An allocation that finds no free chunk and gets no bookkeeping for a new slab.
alloc-none :
    (purge : Pfa → ℕ × Pfa) (fuel bytes size : ℕ) (s : Slabs)
    → size_idx bytes ≡ some size
    → find_slab (get_or chunk_sizes size 0) (slabs_of size s) 0 ≡ no_slot
    → do_slab_alloc purge fuel meta_size (waste size bytes s) ≡ none
    → do_slab_alloc purge (suc fuel) bytes s ≡ none
unfolding do_slab_alloc
alloc-none purge fuel bytes size s e f rest = rw (e, f, rest, do_slab_alloc)

-- If no slab of 32-byte chunks has a free chunk, an allocation of the bookkeeping of a slab fails
-- at every depth of recursion, since it needs such a chunk itself.
do_slab_alloc-none :
    (purge : Pfa → ℕ × Pfa) (fuel : ℕ) (s : Slabs)
    → All Full (slabs_of 2 s)
    → do_slab_alloc purge fuel meta_size s ≡ none
unfolding do_slab_alloc size_idx round_up_pow2 pow_loop
do_slab_alloc-none purge zero s h = refl
do_slab_alloc-none purge (suc fuel) s h =
    alloc-none purge fuel meta_size 2 s meta_idx (find_slab-Full 32 (slabs_of 2 s) 0 h)
      (do_slab_alloc-none purge fuel (waste 2 meta_size s) h)
