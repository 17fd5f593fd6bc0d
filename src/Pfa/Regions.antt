-- ===== src/Pfa/Regions.antt =====
-- kernel/mm/pfa.c, `map_phys_region`: which frames of a region become free.
use minima.Base.{
  ℕ, zero, suc, ◌+◌, ◌-◌, ◌*◌, ◌^◌, ◌≤◌, ◌<◌, ◌≡◌, ◌≢◌, ◌⊎◌, inl, inr, refl, true, false, List, [],
  ◌∷◌, arith, length, if◌then◌else◌, ◌==◌, page_size, add32, mul32,
}
use native.Mathlib.Decide.{ℕ_discrete}
use minima.Base.Counts.{count}
use minima.Pfa.{
  Region, PhysRegion, is_reserved, region_overlaps, pf_free, map_pages, map_phys_region,
}

-- the address at which a page is mapped
abbrev pub address : ℕ → ℕ → ℕ
address offset p = add32 (mul32 p page_size) offset

-- The pages of `p, p + 1, …` that are not reserved, the last one first, and how many are.
abbrev pub usable : ℕ → List Region → ℕ → ℕ → List ℕ → List ℕ
usable offset resvd zero p l = l
usable offset resvd (suc n) p l =
    usable offset resvd n (suc p) (if is_reserved resvd p then l else address offset p ∷ l)

pub map_pages-count :
    (offset : ℕ) (resvd : List Region) (n p c : ℕ) (l : List ℕ)
    → (map_pages offset resvd n p (c, l)).0 + length (map_pages offset resvd n p (c, l)).1
      ≡ c + length l + n
unfolding map_pages pf_free
map_pages-count offset resvd zero p c l = omega arith
map_pages-count offset resvd (suc n) p c l = ground (
  arith,
  map_pages-count offset resvd n (suc p) (suc c) l,
  map_pages-count offset resvd n (suc p) c (address offset p ∷ l),
)

-- How often an address stands in the list afterwards: once more for each page of the region that
-- is mapped there and is not reserved.
abbrev pub mapped_at : ℕ → List Region → ℕ → ℕ → ℕ → ℕ
mapped_at offset resvd zero p a = 0
mapped_at offset resvd (suc n) p a =
    (if is_reserved resvd p then 0 else if a == address offset p then 1 else 0)
    + mapped_at offset resvd n (suc p) a

pub map_pages-mapped :
    (offset : ℕ) (resvd : List Region) (n p c : ℕ) (l : List ℕ) (a : ℕ)
    → count a (map_pages offset resvd n p (c, l)).1 ≡ mapped_at offset resvd n p a + count a l
unfolding map_pages pf_free
map_pages-mapped offset resvd zero p c l a = omega arith
map_pages-mapped offset resvd (suc n) p c l a = ground (
  arith,
  map_pages-mapped offset resvd n (suc p) (suc c) l a,
  map_pages-mapped offset resvd n (suc p) c (address offset p ∷ l) a,
)

-- Pages below 2 ^ 20 that are mapped in the range above the offset have addresses of their own.
mapped_at_above :
    (offset : ℕ) (resvd : List Region) (n p q : ℕ)
    → q < p
    → (p + n) * page_size + offset ≤ 2 ^ 32
    → mapped_at offset resvd n p (address offset q) ≡ 0
mapped_at_above offset resvd zero p q h fits = refl
mapped_at_above offset resvd (suc n) p q h fits =
    ground (arith, mapped_at_above offset resvd n (suc p) q)

pub mapped_at_page :
    (offset : ℕ) (resvd : List Region) (n p q : ℕ)
    → p ≤ q
    → q < p + n
    → (p + n) * page_size + offset ≤ 2 ^ 32
    → mapped_at offset resvd n p (address offset q) ≡ (if is_reserved resvd q then 0 else 1)
mapped_at_page offset resvd zero p q lo hi fits = absurd (omega arith)
mapped_at_page offset resvd (suc n) p q lo hi fits = elim (ℕ_discrete p q) [
  | yes e ↦ rw (← e) (ground (arith, mapped_at_above offset resvd n (suc p) p))
  | no ne ↦
      let apart : address offset q ≢ address offset p = omega arith in
      ground (arith, apart, mapped_at_page offset resvd n (suc p) q)
]

-- For a region that is mapped without wrap, map_phys_region puts each of its pages that is not
-- reserved exactly once more into the free list and a reserved one not at all, and counts the
-- reserved ones, so that no page of the region is lost.
pub map_phys_region_lem :
    (offset : ℕ) (resvd : List Region) (region : PhysRegion) (l : List ℕ) (q : ℕ)
    → (region.r.start + region.r.pages) * page_size + offset ≤ 2 ^ 32
    → region.r.start ≤ q
    → q < region.r.start + region.r.pages
    → (count (address offset q) (map_phys_region offset resvd region l).1
        ≡ (if is_reserved resvd q then 0 else 1) + count (address offset q) l)
      × ((map_phys_region offset resvd region l).0.reserved
            + length (map_phys_region offset resvd region l).1
          ≡ region.reserved + length l + region.r.pages)
      × ((map_phys_region offset resvd region l).0.r ≡ region.r)
unfolding map_phys_region
map_phys_region_lem offset resvd region l q fits lo hi =
    let n = add32 region.r.start region.r.pages - region.r.start in
    let e : n ≡ region.r.pages = omega arith in
    (
      omega (
        arith,
        map_pages-mapped offset resvd n region.r.start region.reserved l (address offset q),
        mapped_at_page offset resvd n region.r.start q lo (omega (arith, e)) (omega (arith, e)),
      ),
      omega (arith, e, map_pages-count offset resvd n region.r.start region.reserved l),
      refl,
    )

-- The page just past the end of the first reserved region, where the region does not wrap, tests as
-- reserved.
pub is_reserved_past_end :
    (r : Region) (rs : List Region)
    → r.start + r.pages < 2 ^ 32
    → is_reserved (r ∷ rs) (r.start + r.pages) ≡ true
unfolding is_reserved
is_reserved_past_end r rs h = ground arith

-- the page lies in one of the regions
abbrev pub InRegion : List Region → ℕ → Type 0
InRegion [] p = ⊥
InRegion (r ∷ rs) p = ((r.start ≤ p) × (p < r.start + r.pages)) ⊎ InRegion rs p

abbrev pub NoWrap : List Region → Type 0
NoWrap [] = Unit
NoWrap (r ∷ rs) = (r.start + r.pages < 2 ^ 32) × NoWrap rs

-- If no reserved region wraps, every page that lies in a reserved region tests as reserved.
pub InRegion-is_reserved :
    (rs : List Region) (p : ℕ) → NoWrap rs → InRegion rs p → is_reserved rs p ≡ true
unfolding is_reserved
InRegion-is_reserved [] p w i = absurd i
InRegion-is_reserved (r ∷ rs) p w (inl i) = ground arith
InRegion-is_reserved (r ∷ rs) p w (inr i) = ground (arith, InRegion-is_reserved rs p w.1 i)

-- A new region that starts before an old one and ends no earlier than it does, without wrap, passes
-- the overlap test though it holds every page of the old one.
pub region_overlaps_misses :
    (r : Region) (start pages : ℕ)
    → start < r.start
    → r.start + r.pages ≤ start + pages
    → start + pages < 2 ^ 32
    → region_overlaps r start pages ≡ false
unfolding region_overlaps
region_overlaps_misses r start pages lo hi fits = ground arith
