-- ===== src/Vma/Insert.antt =====
-- kernel/mm/vma.c, the first loop of `do_defrag`: `v_ilist_insert` with `vma_cmp` keeps the free
-- list in order, and never meets a comparison without a result.
use minima.Base.{
  ℕ, suc, ◌+◌, ◌≤◌, ◌≡◌, ◌≢◌, ◌⊎◌, refl, ap, ◌∙◌, inl, inr, Option, some, List, [], ◌∷◌, arith, All,
}
use minima.IList
use minima.IList.{Sign, minus, nought, plus}
use minima.Vma.{Vma, vma_cmp, insert_all}
use minima.Vma.Ranges.{IsRange, inside, cover, Ordered}

-- Two ranges with no address in common.
abbrev Apart : Vma → Vma → Type 0
Apart a p = (a.start + a.size ≤ p.start) ⊎ (p.start + p.size ≤ a.start)

cmp_plus : (a p : Vma) → IsRange p → p.start + p.size ≤ a.start → vma_cmp a p ≡ some plus
unfolding vma_cmp
cmp_plus a p is h = ground (arith, is.no_wrap)

cmp_before :
    (a p : Vma)
    → IsRange a
    → IsRange p
    → a.start + a.size ≤ p.start
    → (vma_cmp a p ≡ some nought) ⊎ (vma_cmp a p ≡ some minus)
unfolding vma_cmp
cmp_before a p ia ip h = ground (arith, ia.no_wrap, ip.no_wrap, ia.some_page)

insert_at-cons :
    (a p : Vma) (l : List Vma) (d : ℕ) (r : Sign)
    → r ≢ minus
    → IList.insert_at a (p ∷ l) (suc d, r) ≡ p ∷ IList.insert_at a l (d, r)
unfolding IList.insert_at
insert_at-cons a p l d minus h = absurd (h refl)
insert_at-cons a p l d nought h = refl
insert_at-cons a p l d plus h = refl

-- One round of the walk: it goes on, or stops before `p`.
walk_on :
    (a p : Vma) (l : List Vma) (i : ℕ) (res : Sign)
    → vma_cmp a p ≡ some plus
    → IList.insert_walk vma_cmp a (p ∷ l) i res plus
      ≡ IList.insert_walk vma_cmp a l (suc i) plus plus
unfolding IList.insert_walk
walk_on a p l i res e = rw (e, IList.insert_walk)

walk_stop :
    (a p : Vma) (l : List Vma) (i : ℕ) (res : Sign)
    → (vma_cmp a p ≡ some nought) ⊎ (vma_cmp a p ≡ some minus)
    → IList.insert_walk vma_cmp a (p ∷ l) i res plus ≡ some (i, nought)
unfolding IList.insert_walk
walk_stop a p l i res (inl e) = rw (e, IList.insert_walk)
walk_stop a p l i res (inr e) = rw (e, IList.insert_walk)

-- Where the walk stops, and what the list is with the node linked there.
abbrev Stops : Vma → ℕ → List Vma → ℕ → Option (ℕ × Sign) → Type 0
Stops a low l i stop =
    (d : ℕ) × (r : Sign) × (stop ≡ some (i + d, r))
    × (r ≢ minus)
    × Ordered low (IList.insert_at a l (d, r))
    × ((x : ℕ) → cover x (IList.insert_at a l (d, r)) ≡ inside x a + cover x l)

walk-Stops :
    (a : Vma) (low : ℕ) (l : List Vma) (i : ℕ) (res : Sign)
    → IsRange a
    → low ≤ a.start
    → res ≢ minus
    → Ordered low l
    → All (Apart a) l
    → Stops a low l i (IList.insert_walk vma_cmp a l i res plus)
unfolding IList.insert_walk IList.insert_at
walk-Stops a low [] i minus is h ne o apart = absurd (ne refl)
walk-Stops a low [] i nought is h ne o apart = (0, nought, ground arith, ne, (h, is, tt), λ x. refl)
walk-Stops a low [] i plus is h ne o apart = (0, plus, ground arith, ne, (h, is, tt), λ x. refl)
walk-Stops a low (p ∷ l) i res is h ne o apart = elim apart.0 [
  | inr after ↦
      let (d, r, e, plain, ordered, same) =
        walk-Stops a (p.start + p.size) l (suc i) plus is after (λ q. cc) o.2 apart.1 in
      (
        suc d,
        r,
        walk_on a p l i res (cmp_plus a p o.1 after) ∙ e ∙ ap (λ n. some (n, r)) (omega arith),
        plain,
        rw (insert_at-cons a p l d r plain) (o.0, o.1, ordered),
        λ x. rw (insert_at-cons a p l d r plain) (omega (arith, same x)),
      )
  | inl here ↦ (
    0,
    nought,
    walk_stop a p l i res (cmp_before a p is o.1 here) ∙ ap (λ n. some (n, nought)) (omega arith),
    λ q. cc,
    (h, is, (here, o.1, o.2)),
    λ x. refl,
  )
]

-- Ranges that share no address, by the count of ranges that hold each address.
Apart-of_cover :
    (a : Vma) (low : ℕ) (l : List Vma)
    → IsRange a
    → Ordered low l
    → ((x : ℕ) → inside x a + cover x l ≤ 1)
    → All (Apart a) l
Apart-of_cover a low [] is o h = tt
Apart-of_cover a low (p ∷ l) is o h = (
  ground (arith, h a.start, h p.start, is.some_page, o.1.some_page),
  Apart-of_cover a (p.start + p.size) l is o.2 (λ x. omega (arith, h x)),
)

-- One insertion: a result, in order, that covers what the list and the node cover.
pub insert-Ordered :
    (a : Vma) (l : List Vma)
    → IsRange a
    → Ordered 0 l
    → ((x : ℕ) → inside x a + cover x l ≤ 1)
    → (l' : List Vma) × (IList.insert vma_cmp a l ≡ some l')
      × Ordered 0 l'
      × ((x : ℕ) → cover x l' ≡ inside x a + cover x l)
unfolding IList.insert
insert-Ordered a l is o h =
    let (d, r, e, plain, ordered, same) =
      walk-Stops a 0 l 0 nought is (omega arith) (λ q. cc) o (Apart-of_cover a 0 l is o h) in
    let e' : IList.insert_walk vma_cmp a l 0 nought plus ≡ some (d, r) =
      e ∙ ap (λ n. some (n, r)) (omega arith) in
    (IList.insert_at a l (d, r), rw (e', IList.insert), ordered, same)

pub insert_all-Ordered :
    (queue free : List Vma)
    → All IsRange queue
    → Ordered 0 free
    → ((x : ℕ) → cover x queue + cover x free ≤ 1)
    → (l' : List Vma) × (insert_all queue free ≡ some l')
      × Ordered 0 l'
      × ((x : ℕ) → cover x l' ≡ cover x queue + cover x free)
unfolding insert_all
insert_all-Ordered [] free is o h = (free, refl, o, λ x. omega arith)
insert_all-Ordered (a ∷ queue) free is o h =
    let (free', e, o', c) = insert-Ordered a free is.0 o (λ x. omega (arith, h x)) in
    let (l', e', o'', c') = insert_all-Ordered queue free' is.1 o' (λ x. omega (arith, h x, c x)) in
    (l', rw (e, insert_all) e', o'', λ x. omega (arith, c x, c' x))
