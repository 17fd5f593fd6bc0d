-- ===== src/Vma/Ranges.antt =====
-- What the lists of kernel/mm/vma.c stand for: which addresses the ranges cover, and how often.
use minima.Base.{
  ℕ, ◌+◌, ◌%◌, ◌^◌, ◌≤◌, ◌<◌, ◌≡◌, refl, ◌&&◌, List, [], ◌∷◌, arith, ltb, leb, if◌then◌else◌,
  page_size, prepend, All,
}
use minima.Vma.{Vma, back_to_front}

-- whole pages, at least one, and no wrap at the end of the address space
pub record IsRange (a : Vma) : Type 0 where
  pub aligned : a.start % page_size ≡ 0
  pub whole : a.size % page_size ≡ 0
  pub some_page : page_size ≤ a.size
  pub no_wrap : a.start + a.size < 2 ^ 32

abbrev pub inside : ℕ → Vma → ℕ
inside x a = if leb a.start x && ltb x (a.start + a.size) then 1 else 0

-- how many of the ranges hold the address
abbrev pub cover : ℕ → List Vma → ℕ
cover x [] = 0
cover x (a ∷ l) = inside x a + cover x l

-- in the order of their addresses, from `low` on, with no overlap
abbrev pub Ordered : ℕ → List Vma → Type 0
Ordered low [] = Unit
Ordered low (a ∷ l) = (low ≤ a.start) × IsRange a × Ordered (a.start + a.size) l

pub cover-prepend :
    (x : ℕ) (a : Vma) (l : List Vma) → cover x (prepend a l) ≡ inside x a + cover x l
cover-prepend x a [] = refl
cover-prepend x a (b ∷ l) = omega (arith, cover-prepend x a l)

pub cover-back_to_front :
    (x : ℕ) (l bs : List Vma) → cover x (back_to_front l bs) ≡ cover x l + cover x bs
cover-back_to_front x [] bs = omega arith
cover-back_to_front x (a ∷ l) bs = omega (arith, cover-back_to_front x l (a ∷ bs))

pub Ordered-weaken : (low low' : ℕ) (l : List Vma) → low' ≤ low → Ordered low l → Ordered low' l
Ordered-weaken low low' [] h o = tt
Ordered-weaken low low' (a ∷ l) h o = (omega (arith, o.0), o.1, o.2)

pub Ordered-IsRange : (low : ℕ) (l : List Vma) → Ordered low l → All IsRange l
Ordered-IsRange low [] o = tt
Ordered-IsRange low (a ∷ l) o = (o.1, Ordered-IsRange (a.start + a.size) l o.2)
