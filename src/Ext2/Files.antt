-- ===== src/Ext2/Files.antt =====
-- kernel/fs/ext2/ext2.c, `ext2_read`, `ext2_read_at` and `ext2_stat`: the reading of files.
use minima.Base.{
  ℕ, zero, suc, ◌+◌, ◌-◌, ◌/◌, ◌%◌, ◌^◌, min, Option, none, some, List, [], ◌++◌, ltb, leb,
  if◌then◌else◌, take, drop, length, add32, sub32,
}
use minima.Vfs.{VfsStat}
use minima.Ext2.{Ext2Fs, Inode, read_i_block}
use minima.Ext2.Inodes.{Ext2Node}

-- What a read does: it stores bytes and returns how many they are; it returns the 1 of a block that
-- cannot be read, having stored what came before; it copies from past the end of the block that
-- was read; or the fuel ends.
pub data Reading : Type 0 where
  stored : List ℕ → Reading
  failed : List ℕ → Reading
  overruns : Reading
  out_of_fuel : Reading

-- bytes stored before the others
abbrev pub after : List ℕ → Reading → Reading
after bytes (Reading.stored rest) = Reading.stored (bytes ++ rest)
after bytes (Reading.failed rest) = Reading.failed (bytes ++ rest)
after bytes Reading.overruns = Reading.overruns
after bytes Reading.out_of_fuel = Reading.out_of_fuel

-- `to_read`, a signed number: one of 2 ^ 31 or more is negative.
abbrev pub to_read : ℕ → ℕ → ℕ → ℕ
to_read file_bytes offset bytes = min bytes (sub32 file_bytes offset)

module _ (read_at : ℕ → Option (List ℕ)) (fs : Ext2Fs) where
  -- The loop, from `bytes_read` on, with the rounds left: the copy of a negative number of bytes
  -- is one of nearly 4 GiB.
  unfoldable pub read_loop : Inode → ℕ → ℕ → ℕ → ℕ → Reading
  read_loop inode offset wanted zero bytes_read = Reading.out_of_fuel
  read_loop inode offset wanted (suc fuel) bytes_read =
      let blk_idx = bytes_read / fs.block_size in
      let blk_bytes = min (wanted - bytes_read) fs.block_size in
      let blk_offset = offset % fs.block_size in
      let rest = read_loop inode offset wanted fuel (bytes_read + blk_bytes) in
      elim (read_i_block read_at fs inode blk_idx) [
        | none ↦ Reading.failed []
        | some block ↦
            if leb (2 ^ 31) wanted
            then Reading.overruns
            else if ltb fs.block_size (blk_offset + blk_bytes)
            then Reading.overruns
            else after (take blk_bytes (drop blk_offset block))
                (if ltb (bytes_read + blk_bytes) wanted then rest else Reading.stored [])
      ]

  -- `ext2_read_at` at a place in the file, and `ext2_read` at its offset, which moves by what was
  -- stored.
  unfoldable pub ext2_read_at : ℕ → Ext2Node → ℕ → ℕ → Reading
  ext2_read_at fuel n bytes at = read_loop n.inode at (to_read n.inode.bytes_lsb at bytes) fuel 0

  unfoldable pub ext2_read : ℕ → Ext2Node → ℕ → ℕ → ℕ × Reading
  ext2_read fuel n offset bytes =
      let reading = read_loop n.inode offset (to_read n.inode.bytes_lsb offset bytes) fuel 0 in
      let moved : ℕ = elim reading [ stored out ↦ add32 offset (length out) | _ ↦ offset ] in
      (moved, reading)

-- `ext2_stat` of a file at an offset
unfoldable pub ext2_stat : Ext2Fs → Ext2Node → ℕ → VfsStat
ext2_stat fs n offset = record {
  size = n.inode.bytes_lsb;
  block_size = fs.block_size;
  offset = offset;
  id = n.base.id;
  mode = n.inode.mode;
  links = n.inode.dir_entries;
  uid = n.inode.uid;
  gid = n.inode.gid;
  atime = n.inode.last_access;
  mtime = n.inode.last_modify;
  ctime = n.inode.create;
}
