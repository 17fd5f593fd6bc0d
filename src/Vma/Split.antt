-- ===== src/Vma/Split.antt =====
-- kernel/mm/vma.c, `find_space` and `vma_split`: best fit, and no address lost or handed out twice.
use mathlib.Core.Path.{subst}
use mathlib.Core.Option.{some-injective}
use minima.Base.{
  remove_at, ℕ, zero, suc, ◌+◌, ◌*◌, ◌≤◌, ◌<◌, ◌≡◌, some, List, [], ◌∷◌, arith, get_elem?,
  page_size, All,
}
use minima.Vma.{Vma, vma_split, put_at}
use minima.Vma.Ranges.{IsRange, inside, cover, Ordered, Ordered-weaken}

pub cover-put_at :
    (x : ℕ) (l : List Vma) (k : ℕ) (a b : Vma)
    → get_elem? l k ≡ some a
    → cover x (put_at l k b) + inside x a ≡ cover x l + inside x b
cover-put_at x [] k a b h = cc
cover-put_at x (c ∷ l) zero a b h = let e : c ≡ a = ground arith in rw e (omega arith)
cover-put_at x (c ∷ l) (suc k) a b h = omega (arith, cover-put_at x l k a b h)

pub cover-remove_at :
    (x : ℕ) (l : List Vma) (k : ℕ) (a : Vma)
    → get_elem? l k ≡ some a
    → cover x (remove_at l k) + inside x a ≡ cover x l
cover-remove_at x [] k a h = cc
cover-remove_at x (c ∷ l) zero a h = let e : c ≡ a = ground arith in rw e (omega arith)
cover-remove_at x (c ∷ l) (suc k) a h = omega (arith, cover-remove_at x l k a h)

pub All-get_elem? {ℓ} :
    (P : Vma → Type ℓ) (l : List Vma) (k : ℕ) {a : Vma} → All P l → get_elem? l k ≡ some a → P a
All-get_elem? P [] k h e = cc
All-get_elem? P (c ∷ l) zero h e = subst P (some-injective _ _ e) h.0
All-get_elem? P (c ∷ l) (suc k) h e = All-get_elem? P l k h.1 e

-- What a split gives away and what it keeps make up the range.
module _ (a : Vma) (pages : ℕ) (is : IsRange a) (pos : 0 < pages)
    (fits : pages * page_size < a.size) where
  pub split_ranges : IsRange (vma_split a pages).0 × IsRange (vma_split a pages).1
  unfolding vma_split
  split_ranges = omega arith

  pub split_cover :
      (x : ℕ) → inside x (vma_split a pages).0 + inside x (vma_split a pages).1 ≡ inside x a
  unfolding vma_split
  split_cover x = ground (arith, is.no_wrap)

  pub split_place :
      ((vma_split a pages).0.start ≡ a.start)
      × ((vma_split a pages).0.size ≡ pages * page_size)
      × (a.start ≤ (vma_split a pages).1.start)
      × ((vma_split a pages).1.start + (vma_split a pages).1.size ≡ a.start + a.size)
  unfolding vma_split
  split_place = omega arith

-- `put_at` and `remove_at` keep the order of the list.
pub Ordered-put_at :
    (low : ℕ) (l : List Vma) (k : ℕ) (a b : Vma)
    → get_elem? l k ≡ some a
    → IsRange b
    → a.start ≤ b.start
    → b.start + b.size ≡ a.start + a.size
    → Ordered low l
    → Ordered low (put_at l k b)
Ordered-put_at low [] k a b e is lo end o = tt
Ordered-put_at low (c ∷ l) zero a b e is lo end o =
    let p : c ≡ a = some-injective _ _ e in
    let q : c.start + c.size ≡ b.start + b.size = ground (arith, p) in
    (ground (arith, p, o.0), is, subst (λ n. Ordered n l) q o.2)
Ordered-put_at low (c ∷ l) (suc k) a b e is lo end o =
    (o.0, o.1, Ordered-put_at (c.start + c.size) l k a b e is lo end o.2)

pub Ordered-remove_at :
    (low : ℕ) (l : List Vma) (k : ℕ) → Ordered low l → Ordered low (remove_at l k)
Ordered-remove_at low [] k o = tt
Ordered-remove_at low (c ∷ l) zero o =
    Ordered-weaken (c.start + c.size) low l (omega (arith, o.0)) o.2
Ordered-remove_at low (c ∷ l) (suc k) o = (o.0, o.1, Ordered-remove_at (c.start + c.size) l k o.2)
