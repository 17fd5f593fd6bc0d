-- ===== src/Ext2/Mount.antt =====
-- kernel/fs/ext2/ext2.c, `find_superblock`, `ext2_new` and `ext2_mount`: how a device becomes a file
-- system. The block sizes are from 1 KiB on, `1024 << n` with n below 32.
use minima.Base.{
  ℕ, zero, suc, ◌+◌, ◌*◌, ◌/◌, ◌%◌, ◌^◌, ◌≡◌, refl, sym, ap, ◌∙◌, not, ◌||◌, Option, none, some,
  List, [], ◌∷◌, ◌++◌, ◌==◌, if◌then◌else◌, add32, sub32, mul32, Bool-cases, Option-cases, inl, inr,
  ==→eq,
}
use minima.Vfs.{Result, NodeType}
use minima.Ext2.{Superblock, Ext2Fs, le16, le32, read_block}
use minima.Ext2.Inodes.{Ext2Node, get_node, mode_2_type, type_of_bits}

-- the fields of a superblock in its 1024 bytes
unfoldable pub superblock_of : List ℕ → Superblock
superblock_of b = record {
  inodes_total = le32 b 0;
  blocks_total = le32 b 4;
  block_size = le32 b 24;
  blocks_per_bgroup = le32 b 32;
  inodes_per_bgroup = le32 b 40;
  ext2_signature = le16 b 56;
  inode_size = le16 b 88;
  required_features = le32 b 96;
}

-- `(total + per - 1) / per`
abbrev pub groups : ℕ → ℕ → ℕ
groups total per = sub32 (add32 total per) 1 / per

-- the size of the device and of its blocks, from `vfs_stat`
pub record DevStat : Type 0 where
  pub size : ℕ
  pub block_size : ℕ

abbrev pub eio : ℕ
eio = 9

-- The tests of `find_superblock` on what it has read; the outer none is a division by 0.
unfoldable pub check_superblock : DevStat → Superblock → Option (Option Superblock)
check_superblock sb super =
    let fs_bytes = mul32 super.blocks_total (1024 * 2 ^ super.block_size) in
    if not (super.ext2_signature == 61267)
    then some none
    else if not (fs_bytes == sb.size)
    then some none
    else if (super.inodes_per_bgroup == 0) || (super.blocks_per_bgroup == 0)
    then none
    else if groups super.inodes_total super.inodes_per_bgroup
        == groups super.blocks_total super.blocks_per_bgroup
    then some (some super)
    else some none

module _ (read_at : ℕ → Option (List ℕ)) where
  -- The loop of `find_superblock`, from the i-th device block of the superblock on.
  unfoldable pub read_super : ℕ → ℕ → ℕ → Option (List ℕ)
  read_super block_size zero i = some []
  read_super block_size (suc n) i = elim (read_at (mul32 (i + 2) block_size)) [
    | none ↦ none
    | some part ↦ elim (read_super block_size n (suc i)) [
      | none ↦ none
      | some parts ↦ some (part ++ parts)
    ]
  ]

  -- none in `stat` is an error of `vfs_stat`.
  unfoldable pub find_superblock : Option DevStat → Option (Option Superblock)
  find_superblock none = some none
  find_superblock (some sb) = elim (read_super sb.block_size (1024 / sb.block_size) 0) [
    | none ↦ some none
    | some bytes ↦ check_superblock sb (superblock_of bytes)
  ]

  -- the descriptors of the block groups, each of 32 bytes, of which the table's address is read
  abbrev pub inode_tables : List ℕ → ℕ → ℕ → List ℕ
  inode_tables block zero i = []
  inode_tables block (suc n) i = le32 block (i * 32 + 8) ∷ inode_tables block n (suc i)

  -- The file system as far as `ext2_mount` has set it up when it reads block 2, and with what it
  -- has read.
  abbrev pub set_up : DevStat → Superblock → List ℕ → Ext2Fs
  set_up sb super bdesc = record {
    dev_block_size = sb.block_size;
    block_size = 1024 * 2 ^ super.block_size;
    inodes_per_bgroup = super.inodes_per_bgroup;
    inode_size = super.inode_size;
    required_features = super.required_features;
    bdesc = bdesc;
  }

  -- The end of `ext2_mount`, from the root node on.
  abbrev pub mount_root : Ext2Fs → Option Ext2Node → Result (Ext2Fs × Ext2Node)
  mount_root fs none = Result.error eio
  mount_root fs (some root) =
      if root.inode.mode / 4096 % 16 == 4 then Result.done (fs, root) else Result.error eio

  -- `ext2_mount` with the superblock that `ext2_new` has found; the file system is `fs_ptr`, and
  -- the first failure is the code of an error of `vfs_stat`.
  unfoldable pub ext2_mount : ℕ → Superblock → Result DevStat → Result (Ext2Fs × Ext2Node)
  ext2_mount fs_ptr super (Result.error e) = Result.error e
  ext2_mount fs_ptr super Result.panics = Result.panics
  ext2_mount fs_ptr super Result.out_of_fuel = Result.out_of_fuel
  ext2_mount fs_ptr super (Result.done sb) =
      let fs = set_up sb super [] in
      if sb.block_size == 0 then Result.panics else elim (read_block read_at fs 2) [
        | none ↦ Result.error eio
        | some block ↦
            let mounted = set_up sb super (inode_tables block (fs.block_size / 32) 0) in
            mount_root mounted (get_node read_at fs_ptr mounted 2)
      ]

  abbrev done_or : Ext2Fs × Ext2Node → Result (Ext2Fs × Ext2Node) → Ext2Fs × Ext2Node
  done_or d (Result.done a) = a
  done_or d _ = d

  mount_root-done :
      (made : Ext2Fs) (o : Option Ext2Node) (fs : Ext2Fs) (root : Ext2Node)
      → mount_root made o ≡ Result.done (fs, root)
      → (o ≡ some root) × (made ≡ fs) × (root.inode.mode / 4096 % 16 ≡ 4)
  mount_root-done made none fs root h = absurd cc
  mount_root-done made (some n) fs root h = elim (Bool-cases (n.inode.mode / 4096 % 16 == 4)) [
    | inr other ↦ let e : mount_root made (some n) ≡ Result.error eio = rw other refl in absurd cc
    | inl is_dir ↦
        let e : mount_root made (some n) ≡ Result.done (made, n) = rw is_dir refl in
        let p : (made, n) ≡ (fs, root) = ap (done_or (made, n)) (sym e ∙ h) in
        let same : n ≡ root = ap (λ q. q.1) p in
        (
          ap some same,
          ap (λ q. q.0) p,
          ap (λ m. m.inode.mode / 4096 % 16) (sym same) ∙ ==→eq (n.inode.mode / 4096 % 16) 4 is_dir,
        )
  ]

  -- If ext2_mount succeeds, the root that it keeps is the node of inode 2 in the file system that
  -- it has set up, and a directory; that file system has the sizes of the superblock and the
  -- table of each block group from block 2.
  pub ext2_mount-root :
      (fs_ptr : ℕ) (super : Superblock) (sb : DevStat) (fs : Ext2Fs) (root : Ext2Node)
      → ext2_mount fs_ptr super (Result.done sb) ≡ Result.done (fs, root)
      → (get_node read_at fs_ptr fs 2 ≡ some root)
        × (mode_2_type root.inode.mode ≡ NodeType.nt_dir)
        × ((block : List ℕ) × (read_block read_at (set_up sb super []) 2 ≡ some block)
            × (fs ≡ set_up sb super (inode_tables block (1024 * 2 ^ super.block_size / 32) 0)))
  unfolding ext2_mount mode_2_type
  ext2_mount-root fs_ptr super sb fs root h = elim (Bool-cases (sb.block_size == 0)) [
    | inl zero_size ↦
        let e : ext2_mount fs_ptr super (Result.done sb) ≡ Result.panics = rw zero_size refl in
        absurd cc
    | inr sized ↦ elim (Option-cases (read_block read_at (set_up sb super []) 2)) [
      | inl failed ↦
          let e : ext2_mount fs_ptr super (Result.done sb) ≡ Result.error eio =
            rw (sized, failed) refl in
          absurd cc
      | inr (block, has) ↦
          let made = set_up sb super (inode_tables block (1024 * 2 ^ super.block_size / 32) 0) in
          let e : ext2_mount fs_ptr super (Result.done sb)
              ≡ mount_root made (get_node read_at fs_ptr made 2) =
            rw (sized, has) refl in
          let (there, same, bits) =
            mount_root-done made (get_node read_at fs_ptr made 2) fs root (sym e ∙ h) in
          (
            ap (λ f. get_node read_at fs_ptr f 2) (sym same) ∙ there,
            ap type_of_bits bits,
            (block, has, sym same),
          )
    ]
  ]
