-- ===== src/Floppy/Cylinders.antt =====
-- kernel/drivers/floppy.c, `cyl_cache_read`: a cylinder from the cache, from dma_buf or from the disk.
use mathlib.Core.Path.{subst}
use native.Mathlib.Nat.{mod-eq_of_lt}
use minima.Base.{
  ℕ, zero, suc, ◌*◌, ◌^◌, ◌<◌, ◌≡◌, ◌≢◌, ◌⊎◌, inl, inr, refl, sym, ap, ◌∙◌, true, false, Bool, ◌&&◌,
  Option, none, some, List, [], ◌∷◌, arith, leb, ◌==◌, if◌then◌else◌, take, length, prepend,
  replicate, All, All-prepend, length-prepend, Bool-cases, ==→eq, ==_refl,
}
use minima.Floppy.{
  Format, Buffer, unallocated, purged, holds, Cylinder, CylCache, Floppy, err, einval, size_of_cyl,
  cyl_cache_init, Search, is_num, search_cyl, read_cyl, fill_dma, allocate, with_cyls, reuse,
  miss_cyl, after_search, the_cache, from_cache, cyl_cache_read, Transfer, reads, loses, resized,
  cylinder_cache_cyls,
}
use minima.Floppy.Geometry.{take-span}
use minima.Floppy.Cached.{
  cylinder_bytes, Shows, IsCached, IsCache, in_dma, Coherent, Searched, nowhere, found,
  search_cyl-Searched, Delivers, Got, got, error,
}

module _ (byte : ℕ → ℕ) (size : ℕ) where
  data Filled (d : Floppy) (cyl : ℕ) (o : Transfer) : Bool × Floppy → Type 0 where
    no_transfer :
        {d' : Floppy} {left : List ℕ} → o ≡ loses left → d'.f ≡ d.f → Filled d cyl o (false, d')
    filled :
        {d' : Floppy}
        → d'.dma_buf ≡ cylinder_bytes byte size cyl
        → ((n : ℕ) → in_dma byte size d' n ≡ true → d'.dma_buf ≡ cylinder_bytes byte size n)
        → d'.f ≡ d.f
        → Filled d cyl o (true, d')

  -- What a transfer leaves holds the cylinder and no other.
  transferred :
      (d : Floppy) (cyl n : ℕ)
      → (cyl == n) && is_num (some d.num) d.num ≡ true
      → cylinder_bytes byte size cyl ≡ cylinder_bytes byte size n
  transferred d cyl n e = elim (Bool-cases (cyl == n)) [
    | inl same ↦ ap (cylinder_bytes byte size) (==→eq cyl n same)
    | inr other ↦ absurd (clash (sym (rw other refl) ∙ e))
  ]
    where
      clash : false ≡ true → ⊥
      clash e = cc

  read_cyl-Filled :
      (d : Floppy) (cyl : ℕ) (o : Transfer)
      → Coherent byte size d
      → ((left : List ℕ) × (o ≡ loses left)) ⊎ (o ≡ reads (cylinder_bytes byte size cyl))
      → Filled d cyl o (read_cyl d cyl o)
  read_cyl-Filled d cyl o is (inl (left, e)) =
      subst (λ t. Filled d cyl t (read_cyl d cyl t)) (sym e) (no_transfer refl refl)
  read_cyl-Filled d cyl o is (inr e) =
      subst (λ t. Filled d cyl t (read_cyl d cyl t)) (sym e)
        (filled refl (λ n held. transferred d cyl n held) refl)

  fill_dma-Filled :
      (d : Floppy) (cyl : ℕ) (o : Transfer)
      → Coherent byte size d
      → Delivers byte size d cyl o
      → Filled d cyl o (fill_dma d cyl o)
  unfolding fill_dma
  fill_dma-Filled d cyl o is from = elim (Bool-cases (in_dma byte size d cyl)) [
    | inl here ↦ rw here (filled (is.dma cyl here) is.dma refl)
    | inr away ↦ rw away (elim from [
      | inl here ↦ absurd (clash (sym away ∙ here))
      | inr delivers ↦ read_cyl-Filled d cyl o is delivers
    ])
  ]
    where
      clash : false ≡ true → ⊥
      clash e = cc

  with_cyls-Coherent :
      (d : Floppy) (c : CylCache) (l : List Cylinder)
      → ((n : ℕ) → in_dma byte size d n ≡ true → d.dma_buf ≡ cylinder_bytes byte size n)
      → c.cyl_size ≡ size
      → All (IsCached byte size) l
      → 0 < length l
      → Coherent byte size (with_cyls d c l)
  with_cyls-Coherent d c l dma same all some_cyl = record {
    cache = (same, all, some_cyl);
    dma = dma;
  }

  allocate-Shows :
      (fresh : List ℕ) (b : Buffer) (n : Option ℕ)
      → Shows byte size b n
      → Shows byte size (allocate fresh b) n
  allocate-Shows fresh unallocated none h = tt
  allocate-Shows fresh unallocated (some n) h = absurd h
  allocate-Shows fresh purged n h = h
  allocate-Shows fresh (holds bytes) n h = h

  reuse-Got :
      (d : Floppy) (c : CylCache) (cyl : ℕ) (o : Transfer) (m : Cylinder) (rest : List Cylinder)
      (r : Bool × Floppy)
      → Coherent byte size d
      → c.cyl_size ≡ size
      → IsCached byte size m
      → All (IsCached byte size) rest
      → Filled d cyl o r
      → Got byte size cyl o d.f (reuse d c cyl m rest r)
  reuse-Got d c cyl o m rest r is same cached all (no_transfer {d'} e fmt) =
      error e (same, (cached, all), omega arith) fmt
  reuse-Got d c cyl o m rest r is same cached all (filled {d'} bytes dma fmt) =
      let copied : take c.cyl_size d'.dma_buf ≡ cylinder_bytes byte size cyl =
        ap (λ (n : ℕ). take n d'.dma_buf) same
        ∙ ap (take size) bytes
        ∙ take-span byte (cyl * size) size size (omega arith) in
      let t : Cylinder = record { buffer = holds (take c.cyl_size d'.dma_buf); num = some cyl } in
      got copied
        (with_cyls-Coherent d' c (prepend t rest) dma same
          (All-prepend (IsCached byte size) t rest copied all)
          (omega (arith, length-prepend t rest)))
        fmt

  miss_cyl-Got :
      (fresh : List ℕ) (d : Floppy) (c : CylCache) (cyl : ℕ) (o : Transfer) (l : List Cylinder)
      → Coherent byte size d
      → c.cyl_size ≡ size
      → All (IsCached byte size) l
      → 0 < length l
      → Delivers byte size d cyl o
      → Got byte size cyl o d.f (miss_cyl fresh d c cyl o l)
  unfolding miss_cyl
  miss_cyl-Got fresh d c cyl o [] is same all pos from = absurd (omega arith)
  miss_cyl-Got fresh d c cyl o (m ∷ rest) is same all pos from =
      reuse-Got d c cyl o (record m { buffer = allocate fresh m.buffer }) rest (fill_dma d cyl o) is
        same (allocate-Shows fresh m.buffer m.num all.0) all.1 (fill_dma-Filled d cyl o is from)

  after_search-Got :
      (fresh : List ℕ) (d : Floppy) (c : CylCache) (cyl : ℕ) (o : Transfer) (r : Search)
      → Coherent byte size d
      → c.cyl_size ≡ size
      → All (IsCached byte size) c.lru_cyls
      → 0 < length c.lru_cyls
      → Delivers byte size d cyl o
      → Searched byte size cyl c.lru_cyls r
      → Got byte size cyl o d.f (after_search fresh d c cyl o r)
  after_search-Got fresh d c cyl o r is same all pos from nowhere =
      miss_cyl-Got fresh d c cyl o c.lru_cyls is same all pos from
  after_search-Got fresh d c cyl o r is same all pos from (found {rest} {t} rest_all cached bytes) =
      got bytes
        (with_cyls-Coherent d c (prepend t rest) is.dma same
          (All-prepend (IsCached byte size) t rest cached rest_all)
          (omega (arith, length-prepend t rest)))
        refl

  from_cache-Got :
      (fresh : List ℕ) (d : Floppy) (cyl : ℕ) (o : Transfer) (c : Option CylCache)
      → Coherent byte size d
      → Delivers byte size d cyl o
      → IsCache byte size c
      → c ≢ none
      → Got byte size cyl o d.f (from_cache fresh d cyl o c)
  from_cache-Got fresh d cyl o none is from cached ne = absurd (ne refl)
  from_cache-Got fresh d cyl o (some c) is from cached ne =
      after_search-Got fresh d c cyl o (search_cyl cyl c.lru_cyls) is cached.0 cached.1 cached.2
        from (search_cyl-Searched byte size cyl c.lru_cyls cached.1)

  empty_cyls :
      (n : ℕ) → All (IsCached byte size) (replicate n (record { buffer = unallocated; num = none }))
  empty_cyls zero = tt
  empty_cyls (suc n) = (tt, empty_cyls n)

  resized-IsCache :
      (c : CylCache)
      → IsCache byte size (some c)
      → IsCache byte size (resized c size) × (resized c size ≢ none)
  resized-IsCache c is =
      let same : (c.cyl_size == size) ≡ true = ap (λ n. n == size) is.0 ∙ ==_refl size in
      let kept : resized c size ≡ some c = rw same refl in
      (subst (IsCache byte size) (sym kept) is, λ e. absurd (some_none c (sym kept ∙ e)))
    where
      some_none : (c : CylCache) → ◌≡◌ {A = Option CylCache} (some c) none → ⊥
      some_none c e = cc

  the_cache-IsCache :
      (c : Option CylCache)
      → size < 2 ^ 16
      → IsCache byte size c
      → IsCache byte size (the_cache c size) × (the_cache c size ≢ none)
  unfolding the_cache cyl_cache_init
  the_cache-IsCache none small is =
      resized-IsCache (cyl_cache_init size cylinder_cache_cyls)
        (mod-eq_of_lt small, empty_cyls cylinder_cache_cyls, omega arith)
  the_cache-IsCache (some c) small is = resized-IsCache c is

pub cyl_cache_read-Got :
    (byte : ℕ → ℕ) (f : Format) (d : Floppy) (fresh : List ℕ) (transfer : ℕ → Transfer) (cyl : ℕ)
    → Coherent byte (size_of_cyl f) d
    → size_of_cyl f < 2 ^ 16
    → cyl < 128
    → Delivers byte (size_of_cyl f) d cyl (transfer cyl)
    → Got byte (size_of_cyl f) cyl (transfer cyl) d.f (cyl_cache_read fresh transfer d f cyl)
unfolding cyl_cache_read
cyl_cache_read-Got byte f d fresh transfer cyl is small low from =
    let size = size_of_cyl f in
    let in_range : leb 128 cyl ≡ false = ground (arith, low) in
    let (cached, some_cache) = the_cache-IsCache byte size d.cache small is.cache in
    subst
      (λ b. Got byte size cyl (transfer cyl) d.f (
        if b
        then (err einval, d)
        else from_cache fresh d cyl (transfer cyl) (the_cache d.cache size)))
      (sym in_range)
      (from_cache-Got byte size fresh d cyl (transfer cyl) (the_cache d.cache size) is from cached
        some_cache)
