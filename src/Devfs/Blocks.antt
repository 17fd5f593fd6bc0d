-- ===== src/Devfs/Blocks.antt =====
-- kernel/fs/dev.c and kernel/fs/ext2/ext2.c: the blocks of an ext2 file system on a block device.
use mathlib.Core.Path.{subst}
use native.Mathlib.Nat.{mul-mod_left, mul-div_cancel, mul_assoc, mul-le-mul_right, add-mul}
use minima.Base.{
  ℕ, zero, suc, ◌+◌, ◌*◌, ◌/◌, ◌%◌, ◌^◌, ◌≤◌, ◌<◌, ◌≡◌, refl, sym, ap, ◌∙◌, true, Option, none,
  some, List, [], ◌++◌, arith, if◌then◌else◌, add32, mul32,
}
use minima.Vfs.{Result, enotsup}
use minima.Devfs.{Driver, devfs_read_at, devfs_get_block_size, is_block, bind_result, or_enotsup}
use minima.Ext2.{Ext2Fs, read_parts, read_block}

-- what a driver reads of a block, less the code of an error
abbrev pub to_option : Result (List ℕ) → Option (List ℕ)
to_option (Result.done bytes) = some bytes
to_option _ = none

-- `vfs_read_at` of one block on a file of the device
abbrev pub on_device : Driver → ℕ → ℕ → Option (List ℕ)
on_device dev block_size at = to_option (devfs_read_at dev block_size at)

-- n blocks of the device, one after the other
abbrev pub run_of : (ℕ → Result (List ℕ)) → ℕ → ℕ → Option (List ℕ)
run_of block_read lba zero = some []
run_of block_read lba (suc n) = elim (to_option (block_read lba)) [
  | none ↦ none
  | some part ↦ elim (run_of block_read (suc lba) n) [
    | none ↦ none
    | some parts ↦ some (part ++ parts)
  ]
]

-- A read of a block of the device at a multiple of its size.
on_device-block :
    (dev : Driver) (block_read : ℕ → Result (List ℕ)) (size lba : ℕ)
    → dev.block_read ≡ some block_read
    → dev.block_size ≡ some (Result.done size)
    → 0 < size
    → devfs_read_at dev size (lba * size) ≡ block_read lba
unfolding devfs_read_at devfs_get_block_size
on_device-block dev block_read size lba reads sized pos =
    let read_with : (ℕ → Result (List ℕ)) → ℕ → Result (List ℕ) = λ read block_size.
      if is_block block_size size (lba * size)
      then read (lba * size / block_size)
      else Result.panics in
    let given : Option (ℕ → Result (List ℕ)) → Result (List ℕ) = λ o. elim o [
      | none ↦ Result.error enotsup
      | some read ↦ bind_result (devfs_get_block_size dev) (read_with read)
    ] in
    let aligned : lba * size % size ≡ 0 = mul-mod_left lba size in
    let ok : is_block size size (lba * size) ≡ true = ground (arith, aligned, pos) in
    ap given reads
    ∙ ap (λ o. bind_result (or_enotsup o) (read_with block_read)) sized
    ∙ ap (λ t. if t then block_read (lba * size / size) else Result.panics) ok
    ∙ ap block_read (mul-div_cancel lba pos)

-- The loop of read_block over the device, from the i-th block on.
parts-run_of :
    (dev : Driver) (block_read : ℕ → Result (List ℕ)) (fs : Ext2Fs) (lba n i : ℕ)
    → dev.block_read ≡ some block_read
    → dev.block_size ≡ some (Result.done fs.dev_block_size)
    → 0 < fs.dev_block_size
    → (lba + i + n) * fs.dev_block_size < 2 ^ 32
    → read_parts (on_device dev fs.dev_block_size) fs (lba * fs.dev_block_size) n i
      ≡ run_of block_read (lba + i) n
unfolding read_parts
parts-run_of dev block_read fs lba zero i reads sized pos small = refl
parts-run_of dev block_read fs lba (suc n) i reads sized pos small =
    let size = fs.dev_block_size in
    let sum : lba * size + i * size ≡ (lba + i) * size = sym (add-mul lba i size) in
    let le : (lba + i) * size ≤ (lba + i + suc n) * size = mul-le-mul_right size (omega arith) in
    let here : add32 (lba * size) (i * size) ≡ (lba + i) * size = omega (arith, sum, le, small) in
    let read : on_device dev size (add32 (lba * size) (i * size))
        ≡ to_option (block_read (lba + i)) =
      ap (on_device dev size) here
      ∙ ap to_option (on_device-block dev block_read size (lba + i) reads sized pos) in
    let e : lba + i + suc n ≡ lba + suc i + n = omega arith in
    let e' : lba + suc i ≡ suc (lba + i) = omega arith in
    let rest =
      parts-run_of dev block_read fs lba n (suc i) reads sized pos
        (subst (λ x. x * size < 2 ^ 32) e small)
      ∙ ap (λ l. run_of block_read l n) e' in
    let join : Option (List ℕ) → Option (List ℕ) → Option (List ℕ) = λ o p. elim o [
      | none ↦ none
      | some part ↦ elim p [ none ↦ none | some parts ↦ some (part ++ parts) ]
    ] in
    ap (λ o. join o (read_parts (on_device dev size) fs (lba * size) n (suc i))) read
    ∙ ap (join (to_option (block_read (lba + i)))) rest

-- On a device of devfs whose driver reads blocks of a size, and a file system whose blocks are n of
-- them, read_block of block b, below 4 GiB, reads the n blocks of the device from b * n on in
-- order, and is an error exactly when the driver fails at one of them: no assertion fails on the
-- way.
pub read_block-run_of :
    (dev : Driver) (block_read : ℕ → Result (List ℕ)) (fs : Ext2Fs) (n b : ℕ)
    → dev.block_read ≡ some block_read
    → dev.block_size ≡ some (Result.done fs.dev_block_size)
    → 0 < fs.dev_block_size
    → fs.block_size ≡ n * fs.dev_block_size
    → (b + 1) * fs.block_size < 2 ^ 32
    → read_block (on_device dev fs.dev_block_size) fs b ≡ run_of block_read (b * n) n
unfolding read_block
read_block-run_of dev block_read fs n b reads sized pos whole small =
    let size = fs.dev_block_size in
    let dbs = on_device dev size in
    let count : fs.block_size / size ≡ n = ap (λ x. x / size) whole ∙ mul-div_cancel n pos in
    let place : b * fs.block_size ≡ b * n * size =
      ap (λ x. b * x) whole ∙ sym (mul_assoc b n size) in
    let up : (b + 1) * fs.block_size ≡ b * fs.block_size + fs.block_size = grind arith in
    let start : mul32 b fs.block_size ≡ b * n * size = omega (arith, place, up, small) in
    let from_0 : b * n + 0 ≡ b * n = omega arith in
    let dist : (b * n + 0 + n) * size ≡ b * n * size + n * size =
      ap (λ x. (x + n) * size) from_0 ∙ add-mul (b * n) n size in
    let fits : (b * n + 0 + n) * size < 2 ^ 32 = omega (arith, dist, place, whole, up, small) in
    ap (λ c. read_parts dbs fs (mul32 b fs.block_size) c 0) count
    ∙ ap (λ o. read_parts dbs fs o n 0) start
    ∙ parts-run_of dev block_read fs (b * n) n 0 reads sized pos fits
    ∙ ap (λ l. run_of block_read l n) from_0
