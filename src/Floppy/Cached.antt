-- ===== src/Floppy/Cached.antt =====
-- kernel/drivers/floppy.c: the cache of cylinders holds what is on the disk.
use minima.Base.{
  span, ℕ, ◌*◌, ◌<◌, ◌≡◌, ◌⊎◌, inl, inr, ap, ◌∙◌, Bool, true, ◌&&◌, Option, none, some, List, [],
  ◌∷◌, ◌==◌, length, All, Bool-cases, ==→eq,
}
use minima.Floppy.{
  Format, Buffer, unallocated, purged, holds, Cylinder, CylCache, Floppy, Outcome, Transfer, reads,
  loses, done, err, eio, Search, missed, hit, is_num, try_hit, or_before, search_cyl,
}

-- A disk by its bytes, and the size of its cylinders.
module _ (byte : ℕ → ℕ) (size : ℕ) where
  abbrev pub cylinder_bytes : ℕ → List ℕ
  cylinder_bytes n = span byte (n * size) size

  -- A buffer with a number holds that cylinder.
  abbrev pub Shows : Buffer → Option ℕ → Type 0
  Shows unallocated none = Unit
  Shows unallocated (some n) = ⊥
  Shows purged none = Unit
  Shows purged (some n) = ⊥
  Shows (holds bytes) none = Unit
  Shows (holds bytes) (some n) = bytes ≡ cylinder_bytes n

  abbrev pub IsCached : Cylinder → Type 0
  IsCached c = Shows c.buffer c.num

  abbrev pub IsCache : Option CylCache → Type 0
  IsCache none = Unit
  IsCache (some c) = (c.cyl_size ≡ size) × All IsCached c.lru_cyls × (0 < length c.lru_cyls)

  abbrev pub in_dma : Floppy → ℕ → Bool
  in_dma d n = is_num d.dma_buf_cyl n && is_num d.dma_buf_drv d.num

  -- The cache and `dma_buf` hold what is on the disk.
  pub record Coherent (d : Floppy) : Type 0 where
    pub cache : IsCache d.cache
    pub dma : (n : ℕ) → in_dma d n ≡ true → d.dma_buf ≡ cylinder_bytes n

  -- What the search comes to.
  pub data Searched (cyl : ℕ) (l : List Cylinder) : Search → Type 0 where
    nowhere : Searched cyl l missed
    found :
        {rest : List Cylinder} {t : Cylinder} {bytes : List ℕ}
        → All IsCached rest
        → IsCached t
        → bytes ≡ cylinder_bytes cyl
        → Searched cyl l (hit rest t bytes)

  try_hit-Searched :
      (c : Cylinder) (l : List Cylinder) (cyl : ℕ) (buffer : Buffer) (num : Option ℕ)
      → IsCached c
      → All IsCached l
      → Shows buffer num
      → Searched cyl (c ∷ l) (try_hit c l (is_num num cyl) buffer)
  try_hit-Searched c l cyl buffer none cached all shows = nowhere
  try_hit-Searched c l cyl buffer (some n) cached all shows = elim (Bool-cases (n == cyl)) [
    | inr e ↦ rw e nowhere
    | inl e ↦ rw e (same_number buffer (==→eq n cyl e) shows)
  ]
    where
      same_number :
          (buffer : Buffer)
          → n ≡ cyl
          → Shows buffer (some n)
          → Searched cyl (c ∷ l) (try_hit c l true buffer)
      same_number unallocated e shows = nowhere
      same_number purged e shows = absurd shows
      same_number (holds bytes) e shows = found all cached (shows ∙ ap cylinder_bytes e)

  or_before-Searched :
      (c : Cylinder) (l : List Cylinder) (cyl : ℕ) (r : Search)
      → IsCached c
      → All IsCached l
      → Searched cyl l r
      → Searched cyl (c ∷ l) (or_before c l cyl r)
  or_before-Searched c l cyl r cached all nowhere =
      try_hit-Searched c l cyl c.buffer c.num cached all cached
  or_before-Searched c l cyl r cached all (found rest t bytes) = found (cached, rest) t bytes

  pub search_cyl-Searched :
      (cyl : ℕ) (l : List Cylinder) → All IsCached l → Searched cyl l (search_cyl cyl l)
  unfolding search_cyl
  search_cyl-Searched cyl [] all = nowhere
  search_cyl-Searched cyl (c ∷ l) all =
      or_before-Searched c l cyl (search_cyl cyl l) all.0 all.1 (search_cyl-Searched cyl l all.1)

  -- Where the controller is asked and transfers a cylinder, it transfers what is on the disk; where the
  -- transfer fails, dma_buf may hold anything after it.
  abbrev pub Delivers : Floppy → ℕ → Transfer → Type 0
  Delivers d cyl o =
      (in_dma d cyl ≡ true)
      ⊎ (((left : List ℕ) × (o ≡ loses left)) ⊎ (o ≡ reads (cylinder_bytes cyl)))

  -- What a read of a cylinder comes to.
  pub data Got (cyl : ℕ) (o : Transfer) (f : Option Format)
      : Outcome (List ℕ) × Floppy → Type 0 where
    got :
        {bytes : List ℕ} {d' : Floppy}
        → bytes ≡ cylinder_bytes cyl
        → Coherent d'
        → d'.f ≡ f
        → Got cyl o f (done bytes, d')
    error :
        {d' : Floppy} {left : List ℕ}
        → o ≡ loses left
        → IsCache d'.cache
        → d'.f ≡ f
        → Got cyl o f (err eio, d')
