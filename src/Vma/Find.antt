-- ===== src/Vma/Find.antt =====
-- kernel/mm/vma.c, `find_space`: best fit, and no address lost or handed out twice.
use mathlib.Core.Path.{subst}
use mathlib.Core.Option.{some-injective}
use minima.Base.{
  remove_at, ℕ, ◌+◌, ◌*◌, ◌^◌, ◌≤◌, ◌<◌, ◌≡◌, ◌↔◌, refl, ap, inl, inr, none, some, arith, ltb,
  get_elem?, page_size, prepend, All, Bool-cases, Option-cases, mul32,
}
use minima.Vma.{Vma, Space, scan_fit, vma_split, find_space, take_fit, put_at}
use minima.Vma.Best.{scan_fit_found, scan_fit_best, scan_fit-none}
use minima.Vma.Split.{
  split_ranges, split_cover, split_place, cover-put_at, cover-remove_at, All-get_elem?,
  Ordered-put_at, Ordered-remove_at,
}
use minima.Vma.Ranges.{IsRange, inside, cover, Ordered, Ordered-IsRange}

-- The two ways in which `find_space` takes a range out of the free list.
data Taken (s : Space) (pages k : ℕ) (f new : Vma) (s' : Space) : Type 0 where
  cut :
      pages * page_size < f.size
      → new ≡ (vma_split f pages).0
      → s' ≡ record s {
        freelist = put_at s.freelist k (vma_split f pages).1;
        in_use = prepend new s.in_use;
      }
      → Taken s pages k f new s'
  whole :
      f.size ≡ pages * page_size
      → new ≡ f
      → s' ≡ record s { freelist = remove_at s.freelist k; in_use = prepend new s.in_use }
      → Taken s pages k f new s'

-- what was found at a position, and that nothing smaller would do
pub record IsBest (s : Space) (pages k : ℕ) (f : Vma) : Type 0 where
  pub listed : get_elem? s.freelist k ≡ some f
  pub fits : pages * page_size ≤ f.size
  pub least : All (λ a. pages * page_size ≤ a.size → f.size ≤ a.size) s.freelist

module _ (s : Space) (pages : ℕ) (small : pages * page_size < 2 ^ 32) where
  bytes-eq : mul32 pages page_size ≡ pages * page_size
  bytes-eq = omega arith

  IsBest-of_scan :
      {k : ℕ} {f : Vma}
      → scan_fit (mul32 pages page_size) s.freelist 0 none ≡ some (k, f)
      → IsBest s pages k f
  IsBest-of_scan {k} {f} e =
      let e' : scan_fit (pages * page_size) s.freelist 0 none ≡ some (k, f) = rw (← bytes-eq) e in
      elim (scan_fit_found (pages * page_size) s.freelist 0 none e') [
        | inl no_fit ↦ cc
        | inr (d, p, g, b) ↦ record {
          listed = let q : k ≡ d = omega arith in rw q g;
          fits = b;
          least = (scan_fit_best (pages * page_size) s.freelist 0 none e').0;
        }
      ]

  take_fit-Taken :
      (k : ℕ) (f : Vma)
      → pages * page_size ≤ f.size
      → Taken s pages k f (take_fit s pages k f).0 (take_fit s pages k f).1
  unfolding take_fit
  take_fit-Taken k f b = elim (Bool-cases (ltb (mul32 pages page_size) f.size)) [
    | inl e ↦ rw e (cut (ground (arith, bytes-eq)) refl refl)
    | inr e ↦ rw e (whole (ground (arith, bytes-eq)) refl refl)
  ]

  find_space-Taken :
      {new : Vma} {s' : Space}
      → find_space s pages ≡ some (new, s')
      → (k : ℕ) × (f : Vma) × IsBest s pages k f × Taken s pages k f new s'
  unfolding find_space
  find_space-Taken {new} {s'} h =
      elim (Option-cases (scan_fit (mul32 pages page_size) s.freelist 0 none)) [
        | inl e ↦ let h' = rw (e, find_space) at h in cc
        | inr ((k, f), e) ↦
            let h' : take_fit s pages k f ≡ (new, s') =
              some-injective _ _ (rw (e, find_space) at h) in
            let best = IsBest-of_scan e in
            (
              k,
              f,
              best,
              subst (λ (r : Vma × Space). Taken s pages k f r.0 r.1) h'
                  (take_fit-Taken k f best.fits),
            )
      ]

-- The range handed out, and what becomes of the three lists.
pub record Found (low : ℕ) (s : Space) (pages : ℕ) (new : Vma) (s' : Space) : Type 0 where
  pub exact : new.size ≡ pages * page_size
  pub range : IsRange new
  pub kept : (x : ℕ) → cover x s'.freelist + inside x new ≡ cover x s.freelist
  pub ordered : Ordered low s'.freelist
  pub listed : s'.in_use ≡ prepend new s.in_use
  pub queue : s'.queue ≡ s.queue

module _ (low : ℕ) (s : Space) (pages : ℕ) (o : Ordered low s.freelist) (pos : 0 < pages) where
  Found-of_Taken :
      {k : ℕ} {f new : Vma} {s' : Space}
      → IsBest s pages k f
      → Taken s pages k f new s'
      → Found low s pages new s'
  Found-of_Taken {k} {f} best (cut fits e e') =
      let is = All-get_elem? IsRange s.freelist k (Ordered-IsRange low s.freelist o) best.listed in
      let place = split_place f pages is pos fits in
      let parts = split_ranges f pages is pos fits in
      rw (e', e)
        (record {
          exact = place.1;
          range = parts.0;
          kept = λ x. omega (
            arith,
            cover-put_at x s.freelist k f (vma_split f pages).1 best.listed,
            split_cover f pages is pos fits x,
          );
          ordered =
              Ordered-put_at low s.freelist k f (vma_split f pages).1 best.listed parts.1 place.2
                place.3 o;
          listed = refl;
          queue = refl;
        })
  Found-of_Taken {k} {f} best (whole same e e') =
      let is = All-get_elem? IsRange s.freelist k (Ordered-IsRange low s.freelist o) best.listed in
      rw (e', e)
        (record {
          exact = same;
          range = is;
          kept = λ x. cover-remove_at x s.freelist k f best.listed;
          ordered = Ordered-remove_at low s.freelist k o;
          listed = refl;
          queue = refl;
        })

  -- From an ordered free list, a range that find_space hands out for one or more pages (fewer than
  -- 4 GiB) has exactly that size, is page-aligned, is taken out of the free list address by
  -- address, is put at the end of the list of ranges in use, and leaves the free list in order and
  -- the queue unchanged.
  pub find_space-Found :
      {new : Vma} {s' : Space}
      → pages * page_size < 2 ^ 32
      → find_space s pages ≡ some (new, s')
      → Found low s pages new s'
  find_space-Found small h =
      let (k, f, best, taken) = find_space-Taken s pages small h in Found-of_Taken best taken

-- Below 4 GiB, a range handed out starts at a free range that is large enough and than which no
-- free range that is large enough is smaller.
pub find_space-IsBest_fit :
    (s : Space) (pages : ℕ) {new : Vma} {s' : Space}
    → pages * page_size < 2 ^ 32
    → find_space s pages ≡ some (new, s')
    → (k : ℕ) × (f : Vma) × IsBest s pages k f × (new.start ≡ f.start)
unfolding vma_split
find_space-IsBest_fit s pages small h =
    let (k, f, best, taken) = find_space-Taken s pages small h in
    elim taken [
      | cut fits e e' ↦ (k, f, best, ap (λ (v : Vma). v.start) e)
      | whole same e e' ↦ (k, f, best, ap (λ (v : Vma). v.start) e)
    ]

-- Below 4 GiB, find_space panics exactly when every free range is smaller than the request.
pub find_space-none :
    (s : Space) (pages : ℕ)
    → pages * page_size < 2 ^ 32
    → (find_space s pages ≡ none) ↔ All (λ a. a.size < pages * page_size) s.freelist
unfolding find_space
find_space-none s pages small = (
  λ h. elim (Option-cases (scan_fit (mul32 pages page_size) s.freelist 0 none)) [
    | inl e ↦
        (scan_fit-none (pages * page_size) s.freelist 0 none (rw (← bytes-eq s pages small) e)).1
    | inr ((k, f), e) ↦ let h' = rw (e, find_space) at h in cc
  ],
  λ all. elim (Option-cases (scan_fit (mul32 pages page_size) s.freelist 0 none)) [
    | inl e ↦ rw (e, find_space)
    | inr ((k, f), e) ↦
        let best = IsBest-of_scan s pages small e in
        let short = All-get_elem? (λ a. a.size < pages * page_size) s.freelist k all best.listed in
        absurd (omega (arith, best.fits, short))
  ],
)
