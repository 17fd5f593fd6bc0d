-- ===== src/Floppy.antt =====
-- kernel/drivers/floppy.c: the geometry of a disk, the cache of cylinders, and the reading of a block,
-- for one task at a time. The transfer of a cylinder by the controller is an argument. `Changes` has
-- check_media_changed; a read of a block stands here without its calls of it, for a disk that is in the
-- drive and not changed, when they do nothing. `handle_drive_change` only notes the drive, which
-- nothing else reads.
-- The locks of the buffers are left out.
pub mod Geometry
pub mod Cached
pub mod Cylinders
pub mod Reads
pub mod Stale
pub mod Changes
pub mod Media
pub mod Detect
pub mod Status
use minima.Base.{
  ℕ, zero, suc, ◌+◌, ◌-◌, ◌*◌, ◌/◌, ◌%◌, ◌^◌, Bool, true, false, ◌&&◌, Option, none, some, List, [],
  ◌∷◌, leb, ◌==◌, if◌then◌else◌, take, drop, prepend, replicate,
}

-- `struct floppy_format`, as far as it is used here
pub record Format : Type 0 where
  pub cyls : ℕ
  pub heads : ℕ
  pub sectors_per_track : ℕ
  pub sector_size : ℕ

-- `DMA_BUF_SIZE`
abbrev pub dma_buf_size : ℕ
dma_buf_size = 5 * 4096

-- The purgeable buffer of a cylinder: not allocated yet, purged, or with its bytes.
pub data Buffer : Type 0 where
  unallocated : Buffer
  purged : Buffer
  holds : List ℕ → Buffer

-- `struct cylinder`; the number -1 is none. Its flags are always 0.
pub record Cylinder : Type 0 where
  pub buffer : Buffer
  pub num : Option ℕ

-- `struct cyl_cache`
pub record CylCache : Type 0 where
  pub lru_cyls : List Cylinder
  pub cyl_size : ℕ

-- `struct floppy_drive`, and `dma_buf` with the cylinder and the drive that it was read from
pub record Floppy : Type 0 where
  pub num : ℕ
  pub f : Option Format
  pub cache : Option CylCache
  pub dma_buf : List ℕ
  pub dma_buf_cyl : Option ℕ
  pub dma_buf_drv : Option ℕ

-- A call returns what it reads, returns a negative error code, or fails an assertion.
pub data Outcome (A : Type 0) : Type 0 where
  done : A → Outcome A
  err : ℕ → Outcome A
  fails : Outcome A

abbrev pub einval : ℕ
einval = 2

abbrev pub eio : ℕ
eio = 9

unfoldable pub lba_to_head : Format → ℕ → ℕ
lba_to_head f lba = lba / f.sectors_per_track % f.heads

unfoldable pub lba_to_cyl : Format → ℕ → ℕ
lba_to_cyl f lba = lba / (f.heads * f.sectors_per_track)

unfoldable pub lba_to_sector : Format → ℕ → ℕ
lba_to_sector f lba = lba % f.sectors_per_track + 1

abbrev pub flop_block_size : Format → ℕ
flop_block_size f = 128 * 2 ^ f.sector_size

abbrev pub size_of_cyl : Format → ℕ
size_of_cyl f = flop_block_size f * f.sectors_per_track * f.heads

unfoldable pub cyl_cache_init : ℕ → ℕ → CylCache
cyl_cache_init cyl_size n_cyls = record {
  lru_cyls = replicate n_cyls (record { buffer = unallocated; num = none });
  cyl_size = cyl_size % 2 ^ 16;
}

-- Whether cyl_cache_destroy comes through: purgeable_free asserts that there is something to free.
unfoldable pub cyl_cache_destroy : List Cylinder → Bool
cyl_cache_destroy [] = true
cyl_cache_destroy (s ∷ l) =
    let rest = cyl_cache_destroy l in
    elim s.buffer [ unallocated ↦ false | purged ↦ rest | holds bytes ↦ rest ]

unfoldable pub cyl_cache_invalidate : List Cylinder → List Cylinder
cyl_cache_invalidate [] = []
cyl_cache_invalidate (s ∷ l) = record s { num = none } ∷ cyl_cache_invalidate l

-- `mem_purge` of a cylinder's buffer: `on_cyl_purge` is called, and the buffer is freed.
unfoldable pub on_cyl_purge : Cylinder → Option Cylinder
on_cyl_purge c = elim c.num [ none ↦ none | some n ↦ some (record { buffer = purged; num = none }) ]

-- The search from the most recently used cylinder on: the others and the bytes of the one found. A
-- purged buffer with a number fails the assertion.
pub data Search : Type 0 where
  missed : Search
  hit : List Cylinder → Cylinder → List ℕ → Search
  broken : Search

abbrev pub is_num : Option ℕ → ℕ → Bool
is_num none cyl = false
is_num (some n) cyl = n == cyl

abbrev pub try_hit : Cylinder → List Cylinder → Bool → Buffer → Search
try_hit c l false buffer = missed
try_hit c l true unallocated = missed
try_hit c l true purged = broken
try_hit c l true (holds bytes) = hit l c bytes

abbrev pub or_before : Cylinder → List Cylinder → ℕ → Search → Search
or_before c l cyl (hit rest c' bytes) = hit (c ∷ rest) c' bytes
or_before c l cyl broken = broken
or_before c l cyl missed = try_hit c l (is_num c.num cyl) c.buffer

unfoldable pub search_cyl : ℕ → List Cylinder → Search
search_cyl cyl [] = missed
search_cyl cyl (c ∷ l) = or_before c l cyl (search_cyl cyl l)

-- What the controller comes to: it reads a cylinder, or fails and leaves these bytes in `dma_buf`.
pub data Transfer : Type 0 where
  reads : List ℕ → Transfer
  loses : List ℕ → Transfer

-- `read_cyl`: whether it succeeds. The transfer is what its last try comes to.
abbrev pub read_cyl : Floppy → ℕ → Transfer → Bool × Floppy
read_cyl d cyl (loses left) = (false, record d { dma_buf = left })
read_cyl d cyl (reads bytes) =
    (true, record d { dma_buf = bytes; dma_buf_cyl = some cyl; dma_buf_drv = some d.num })

-- The test of what is in `dma_buf`, and the transfer where it is something else.
unfoldable pub fill_dma : Floppy → ℕ → Transfer → Bool × Floppy
fill_dma d cyl bytes =
    if is_num d.dma_buf_cyl cyl && is_num d.dma_buf_drv d.num
    then (true, d)
    else read_cyl d cyl bytes

-- A buffer is allocated where there is none; `fresh` is what it holds then.
abbrev pub allocate : List ℕ → Buffer → Buffer
allocate fresh unallocated = holds fresh
allocate fresh purged = purged
allocate fresh (holds bytes) = holds bytes

abbrev pub with_cyls : Floppy → CylCache → List Cylinder → Floppy
with_cyls d c l = record d { cache = some (record c { lru_cyls = l }) }

-- The least recently used cylinder takes the new bytes.
abbrev pub reuse :
    Floppy → CylCache → ℕ → Cylinder → List Cylinder → Bool × Floppy → Outcome (List ℕ) × Floppy
reuse d c cyl miss rest (false, d') = (err eio, with_cyls d' c (miss ∷ rest))
reuse d c cyl miss rest (true, d') =
    let bytes = take c.cyl_size d'.dma_buf in
    (done bytes, with_cyls d' c (prepend (record { buffer = holds bytes; num = some cyl }) rest))

unfoldable pub miss_cyl :
    List ℕ → Floppy → CylCache → ℕ → Transfer → List Cylinder → Outcome (List ℕ) × Floppy
miss_cyl fresh d c cyl bytes [] = (fails, d)
miss_cyl fresh d c cyl bytes (m ∷ rest) =
    reuse d c cyl (record m { buffer = allocate fresh m.buffer }) rest (fill_dma d cyl bytes)

abbrev pub after_search :
    List ℕ → Floppy → CylCache → ℕ → Transfer → Search → Outcome (List ℕ) × Floppy
after_search fresh d c cyl bytes (hit rest t found) = (done found, with_cyls d c (prepend t rest))
after_search fresh d c cyl bytes broken = (fails, d)
after_search fresh d c cyl bytes missed = miss_cyl fresh d c cyl bytes c.lru_cyls

abbrev pub cylinder_cache_cyls : ℕ
cylinder_cache_cyls = 16

-- The cache of the right size; none is a failed assertion.
abbrev pub resized : CylCache → ℕ → Option CylCache
resized c cyl_size =
    if c.cyl_size == cyl_size
    then some c
    else if cyl_cache_destroy c.lru_cyls
    then some (cyl_cache_init cyl_size cylinder_cache_cyls)
    else none

unfoldable pub the_cache : Option CylCache → ℕ → Option CylCache
the_cache none cyl_size = resized (cyl_cache_init cyl_size cylinder_cache_cyls) cyl_size
the_cache (some c) cyl_size = resized c cyl_size

abbrev pub from_cache : List ℕ → Floppy → ℕ → Transfer → Option CylCache → Outcome (List ℕ) × Floppy
from_cache fresh d cyl bytes none = (fails, d)
from_cache fresh d cyl bytes (some c) = after_search fresh d c cyl bytes (search_cyl cyl c.lru_cyls)

-- `cyl_cache_read` once there is a disk; the cylinder is an `int8_t`.
unfoldable pub cyl_cache_read :
    List ℕ → (ℕ → Transfer) → Floppy → Format → ℕ → Outcome (List ℕ) × Floppy
cyl_cache_read fresh transfer d f cyl =
    if leb 128 cyl
    then (err einval, d)
    else from_cache fresh d cyl (transfer cyl) (the_cache d.cache (size_of_cyl f))

-- What `flop_block_read` does with the buffer of the cylinder.
abbrev pub copy_block : Format → ℕ → Outcome (List ℕ) × Floppy → Outcome (List ℕ) × Floppy
copy_block f lba (err e, d) = (err eio, d)
copy_block f lba (fails, d) = (fails, d)
copy_block f lba (done buf, d) =
    let secbytes = flop_block_size f in
    let track_bytes = f.sectors_per_track * secbytes in
    let at = lba_to_head f lba * track_bytes + (lba_to_sector f lba - 1) * secbytes in
    (done (take secbytes (drop at buf)), d)

abbrev pub block_at :
    List ℕ → (ℕ → Transfer) → Floppy → Option Format → ℕ → Outcome (List ℕ) × Floppy
block_at fresh transfer d none lba = (err eio, d)
block_at fresh transfer d (some f) lba =
    copy_block f lba (cyl_cache_read fresh transfer d f (lba_to_cyl f lba % 2 ^ 8))

-- The block number is passed on with 16 bits.
unfoldable pub flop_block_read : List ℕ → (ℕ → Transfer) → Floppy → ℕ → Outcome (List ℕ) × Floppy
flop_block_read fresh transfer d lba = block_at fresh transfer d d.f (lba % 2 ^ 16)

unfoldable pub flop_block_count : Floppy → Outcome ℕ
flop_block_count d = elim d.f [
  | none ↦ err eio
  | some f ↦ done (f.cyls * f.heads * f.sectors_per_track)
]

-- `media_ejected`; without a cache it goes through NULL. `media_inserted`, with the format that is
-- detected.
unfoldable pub media_ejected : Floppy → Option Floppy
media_ejected d = elim d.f [
  | none ↦ none
  | some f ↦ elim d.cache [
    | none ↦ none
    | some c ↦ some (record d {
      f = none;
      cache = some (record c { lru_cyls = cyl_cache_invalidate c.lru_cyls });
    })
  ]
]

unfoldable pub media_inserted : Floppy → Option Format → Option Floppy
media_inserted d none = none
media_inserted d (some f) = some (record d { f = some f })
