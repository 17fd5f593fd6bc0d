-- ===== src/Pfa/Frames.antt =====
-- kernel/mm/pfa.c, `pf_alloc` and `pf_free` as the processor runs them: on a chain of frames in
-- memory, with one atomic `cmpxchg`, and other tasks running between any two steps.
use minima.Base.{
  ℕ, ◌≡◌, ◌≢◌, refl, sym, ap, Bool, true, false, Option, none, some, List, [], ◌∷◌, arith, ◌==◌,
  if◌then◌else◌, ==_refl, not-==→ne, ==→eq, Bool-cases, inl, inr,
}
use mathlib.Core.Path.{subst}
use minima.Base.Counts.{count}

-- `page_freelist`, and the `next` of the frame at each address. `NULL` is 0.
pub record Mem : Type 0 where
  pub page_freelist : ℕ
  pub next : ℕ → ℕ

abbrev update : (ℕ → ℕ) → ℕ → ℕ → ℕ → ℕ
update f a v b = if b == a then v else f b

-- `cmpxchg(&page_freelist, old, new)`: whether it stored, and the memory.
unfoldable pub cmpxchg : Mem → ℕ → ℕ → Bool × Mem
cmpxchg m old new =
    if m.page_freelist == old then (true, record m { page_freelist = new }) else (false, m)

-- The loop of `pf_alloc` in two steps: the reads of `old` and `new`, then the exchange.
unfoldable pub alloc_read : Mem → ℕ × ℕ
alloc_read m = (m.page_freelist, m.next m.page_freelist)

-- `some old` is the frame returned, `none` that the loop goes round again.
unfoldable pub alloc_swap : Mem → ℕ × ℕ → Option ℕ × Mem
unfolding cmpxchg
alloc_swap m (old, new) =
    let (stored, m') = cmpxchg m old new in (if stored then some old else none, m')

-- A round of `pf_free`: `frame->next = page_freelist`, then the exchange.
unfoldable pub free_link : Mem → ℕ → Mem
free_link m frame = record m { next = update m.next frame m.page_freelist }

unfoldable pub free_swap : Mem → ℕ → Bool × Mem
unfolding cmpxchg
free_swap m frame = cmpxchg m (m.next frame) frame

-- One whole call with no other task in between.
unfoldable pub alloc : Mem → Option ℕ × Mem
unfolding alloc_read alloc_swap
alloc m = alloc_swap m (alloc_read m)

unfoldable pub free : Mem → ℕ → Bool × Mem
unfolding free_link free_swap
free m frame = free_swap (free_link m frame) frame

-- From `p` on the `next` pointers lead through these frames to `NULL`, and none of them is `NULL`.
abbrev pub IsChain : (ℕ → ℕ) → ℕ → List ℕ → Type 0
IsChain next p [] = p ≡ 0
IsChain next p (a ∷ l) = (p ≡ a) × (a ≢ 0) × IsChain next (next a) l

-- A write to a frame outside a chain leaves the chain.
IsChain-outside :
    (next : ℕ → ℕ) (p f v : ℕ) (l : List ℕ)
    → count f l ≡ 0
    → IsChain next p l
    → IsChain (update next f v) p l
IsChain-outside next p f v [] out c = c
IsChain-outside next p f v (a ∷ l) out (e, ne, c) =
    let apart : (a == f) ≡ false = ground arith in
    (e, ne, rw apart (IsChain-outside next (next a) f v l (ground arith) c))

-- What the two calls do when nothing comes in between.
alloc-eq :
    (m : Mem)
    → alloc m ≡ (some m.page_freelist, record m { page_freelist = m.next m.page_freelist })
unfolding alloc
alloc-eq m = rw ==_refl

free-eq :
    (m : Mem) (f : ℕ)
    → free m f ≡ (true, record { page_freelist = f; next = update m.next f m.page_freelist })
unfolding free
free-eq m f = rw (==_refl, ==_refl)

-- On a chain of frames that is not empty, pf_alloc with no other task in between returns the first
-- frame and leaves the chain of the rest.
alloc-pop :
    (m : Mem) (a : ℕ) (l : List ℕ)
    → IsChain m.next m.page_freelist (a ∷ l)
    → ((alloc m).0 ≡ some a) × IsChain (alloc m).1.next (alloc m).1.page_freelist l
alloc-pop m a l (e, ne, c) = rw alloc-eq (ap some e, rw e c)

-- pf_free of a frame that is not NULL and not in the chain, with no other task in between, succeeds
-- and puts the frame in front of the chain.
free-push :
    (m : Mem) (f : ℕ) (l : List ℕ)
    → IsChain m.next m.page_freelist l
    → f ≢ 0
    → count f l ≡ 0
    → ((free m f).0 ≡ true) × IsChain (free m f).1.next (free m f).1.page_freelist (f ∷ l)
free-push m f l c ne out =
    subst (λ (r : Bool × Mem). (r.0 ≡ true) × IsChain r.1.next r.1.page_freelist (f ∷ l))
      (sym (free-eq m f))
      (
        refl,
        (refl, ne, rw ==_refl (IsChain-outside m.next m.page_freelist f m.page_freelist l out c)),
      )

free_swap-stored :
    (m : Mem) (f : ℕ)
    → (m.page_freelist == m.next f) ≡ true
    → free_swap m f ≡ (true, record m { page_freelist = f })
unfolding free_swap
free_swap-stored m f e = rw e

free_swap-missed :
    (m : Mem) (f : ℕ) → (m.page_freelist == m.next f) ≡ false → free_swap m f ≡ (false, m)
unfolding free_swap
free_swap-missed m f e = rw e

-- The exchange stored the frame in front of the chain, or did nothing.
pub data Freed (m : Mem) (f : ℕ) (l : List ℕ) : Bool × Mem → Type 0 where
  stored : {m' : Mem} → IsChain m'.next m'.page_freelist (f ∷ l) → Freed m f l (true, m')
  missed : m.page_freelist ≢ m.next f → Freed m f l (false, m)

-- Whatever other tasks have done since the frame was linked, as long as the free list is a chain:
-- the exchange of pf_free either puts the frame in front of the chain of that moment or changes
-- nothing.
pub free_swap_any :
    (m : Mem) (f : ℕ) (l : List ℕ)
    → IsChain m.next m.page_freelist l
    → f ≢ 0
    → Freed m f l (free_swap m f)
free_swap_any m f l c ne = elim (Bool-cases (m.page_freelist == m.next f)) [
  | inl e ↦
      subst (Freed m f l) (sym (free_swap-stored m f e))
        (stored (refl, ne, subst (λ p. IsChain m.next p l) (==→eq _ _ e) c))
  | inr e ↦ subst (Freed m f l) (sym (free_swap-missed m f e)) (missed (not-==→ne _ _ e))
]

-- If, between the reads and the exchange of one pf_alloc, another task allocates the two first
-- frames and frees the first, the exchange succeeds and the next pf_alloc hands out the second
-- frame, which is still in use.
pub alloc_swap_aba :
    (m : Mem) (a b : ℕ) (l : List ℕ)
    → IsChain m.next m.page_freelist (a ∷ b ∷ l)
    → a ≢ b
    → let m1 = (alloc m).1 in
      let m2 = (alloc m1).1 in
      let m3 = (free m2 a).1 in
      let (got, m4) = alloc_swap m3 (alloc_read m) in
      ((alloc m1).0 ≡ some b) × (got ≡ some a) × ((alloc m4).0 ≡ some b)
unfolding alloc free
alloc_swap_aba m a b l (e, ne, c) apart = ground (arith, e, c.0)
