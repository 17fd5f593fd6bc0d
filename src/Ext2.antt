-- ===== src/Ext2.antt =====
-- kernel/fs/ext2/ext2.c: blocks, inodes and the map from a file's blocks to those of the disk. A
-- block is the list of its bytes; what is printed, and the allocations, which never fail here, are
-- left out.
pub mod Digits
pub mod Index
pub mod Inodes
pub mod Files
pub mod Spans
pub mod Reads
pub mod Dirs
pub mod Names
pub mod Mount
use minima.Base.{
  ℕ, zero, suc, ◌+◌, ◌-◌, ◌*◌, ◌/◌, ◌%◌, ◌^◌, Bool, true, false, not, ◌&&◌, Option, none, some,
  List, [], ◌∷◌, ◌++◌, ltb, ◌==◌, if◌then◌else◌, get_or, get_elem?, add32, sub32, mul32, drop, take,
}

-- a little-endian word of two or of four bytes
abbrev pub le16 : List ℕ → ℕ → ℕ
le16 data_bytes i = get_or data_bytes i 0 + 256 * get_or data_bytes (i + 1) 0

abbrev pub le32 : List ℕ → ℕ → ℕ
le32 data_bytes i = le16 data_bytes i + 65536 * le16 data_bytes (i + 2)

-- `struct ext2_superblock`, the fields that the driver reads
pub record Superblock : Type 0 where
  pub inodes_total : ℕ
  pub blocks_total : ℕ
  pub block_size : ℕ
  pub blocks_per_bgroup : ℕ
  pub inodes_per_bgroup : ℕ
  pub ext2_signature : ℕ
  pub inode_size : ℕ
  pub required_features : ℕ

-- `struct inode`, likewise
pub record Inode : Type 0 where
  pub mode : ℕ
  pub uid : ℕ
  pub bytes_lsb : ℕ
  pub last_access : ℕ
  pub create : ℕ
  pub last_modify : ℕ
  pub gid : ℕ
  pub dir_entries : ℕ
  pub dir_blocks : List ℕ
  pub singly_linked : ℕ
  pub doubly_linked : ℕ
  pub triply_linked : ℕ

-- `struct ext2_fs`, less the device; `bdesc` is the `inode_table_start` of each block group.
pub record Ext2Fs : Type 0 where
  pub dev_block_size : ℕ
  pub block_size : ℕ
  pub inodes_per_bgroup : ℕ
  pub inode_size : ℕ
  pub required_features : ℕ
  pub bdesc : List ℕ

abbrev pub words_at : ℕ → List ℕ → ℕ → List ℕ
words_at zero block i = []
words_at (suc n) block i = le32 block i ∷ words_at n block (i + 4)

-- the bytes of a `struct inode` as its fields
unfoldable pub inode_of : List ℕ → Inode
inode_of b = record {
  mode = le16 b 0;
  uid = le16 b 2;
  bytes_lsb = le32 b 4;
  last_access = le32 b 8;
  create = le32 b 12;
  last_modify = le32 b 16;
  gid = le16 b 24;
  dir_entries = le16 b 26;
  dir_blocks = words_at 12 b 40;
  singly_linked = le32 b 88;
  doubly_linked = le32 b 92;
  triply_linked = le32 b 96;
}

-- `sizeof(blkaddr_t)`
abbrev pub addr_size : ℕ
addr_size = 4

-- addresses per block
abbrev pub per_block : Ext2Fs → ℕ
per_block fs = fs.block_size / addr_size

-- `cur[i]`
abbrev pub address : List ℕ → ℕ → ℕ
address block i = le32 block (addr_size * i)

-- `cur_idx` of `read_indirect`
abbrev pub cur_idx : ℕ → ℕ → ℕ → ℕ
cur_idx apb idx zero = idx % apb
cur_idx apb idx (suc zero) = idx / apb % apb
cur_idx apb idx (suc (suc zero)) = idx / (apb * apb) % (apb * apb)
cur_idx apb idx (suc (suc (suc n))) = 0

-- the bytes of an inode in a block, from an offset on
abbrev pub inode_at : ℕ → List ℕ → Inode
inode_at offset block = inode_of (drop offset block)

-- `read_at` is `vfs_read_at` on the device for one of its blocks, at a byte of the device; `none` is
-- an error, and stands for the result 1 in what follows.
module _ (read_at : ℕ → Option (List ℕ)) where
  -- The loop of `read_block`, with the number of device blocks left.
  unfoldable pub read_parts : Ext2Fs → ℕ → ℕ → ℕ → Option (List ℕ)
  read_parts fs offset zero i = some []
  read_parts fs offset (suc n) i = elim (read_at (add32 offset (i * fs.dev_block_size))) [
    | none ↦ none
    | some part ↦ elim (read_parts fs offset n (suc i)) [
      | none ↦ none
      | some parts ↦ some (part ++ parts)
    ]
  ]

  unfoldable pub read_block : Ext2Fs → ℕ → Option (List ℕ)
  unfolding read_parts
  read_block fs b = read_parts fs (mul32 b fs.block_size) (fs.block_size / fs.dev_block_size) 0

  unfoldable pub read_indirect : Ext2Fs → ℕ → List ℕ → ℕ → Option (List ℕ)
  read_indirect fs idx cur zero =
      let a = address cur (cur_idx (per_block fs) idx 0) in if a == 0 then none else read_block fs a
  read_indirect fs idx cur (suc depth) =
      elim (read_block fs (address cur (cur_idx (per_block fs) idx (suc depth)))) [
        | none ↦ none
        | some next_block ↦ read_indirect fs idx next_block depth
      ]

  -- One of the three indirect cases of `read_i_block`: the block of addresses, then the walk.
  unfoldable pub read_linked : Ext2Fs → ℕ → ℕ → ℕ → Option (List ℕ)
  read_linked fs linked idx depth = elim (read_block fs linked) [
    | none ↦ none
    | some block ↦ read_indirect fs idx block depth
  ]

  unfoldable pub read_i_block : Ext2Fs → Inode → ℕ → Option (List ℕ)
  read_i_block fs inode idx =
      let apb = per_block fs in
      let idx1 = sub32 idx 12 in
      let idx2 = sub32 idx1 apb in
      let idx3 = sub32 idx2 (mul32 apb apb) in
      if ltb idx 12 && not (get_or inode.dir_blocks idx 0 == 0)
      then read_block fs (get_or inode.dir_blocks idx 0)
      else if ltb idx1 apb && not (inode.singly_linked == 0)
      then read_linked fs inode.singly_linked idx1 0
      else if ltb idx2 (mul32 apb apb) && not (inode.doubly_linked == 0)
      then read_linked fs inode.doubly_linked idx2 1
      else if ltb idx3 (mul32 (mul32 apb apb) apb) && not (inode.triply_linked == 0)
      then read_linked fs inode.triply_linked idx3 2
      else none

  -- `get_inode`. A group past the table of descriptors, which the source reads all the same, is
  -- none too.
  unfoldable pub get_inode : Ext2Fs → ℕ → Option Inode
  get_inode fs i =
      let group = sub32 i 1 / fs.inodes_per_bgroup in
      let i_idx = sub32 i 1 % fs.inodes_per_bgroup in
      let inode_blk = i_idx * fs.inode_size / fs.block_size in
      let inodes_per_block = fs.block_size / fs.inode_size in
      elim (get_elem? fs.bdesc group) [
        | none ↦ none
        | some inode_table_start ↦ elim (read_block fs (add32 inode_table_start inode_blk)) [
          | none ↦ none
          | some block ↦ some (inode_at (i_idx % inodes_per_block * fs.inode_size) block)
        ]
      ]
