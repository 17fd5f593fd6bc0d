-- ===== src/Ext2/Inodes.antt =====
-- kernel/fs/ext2/ext2.c, `get_inode` and the nodes of the virtual file system that stand for inodes.
use native.Mathlib.Nat.{
  mul-add-div_right, div-eq_of_lt, mod-eq_of_lt, mul-add-mod_self_right, mul-div_cancel,
  mul-div-mul_right,
}
use minima.Base.{
  ℕ, ◌+◌, ◌*◌, ◌/◌, ◌%◌, ◌^◌, ◌<◌, ◌≡◌, ap, ◌∙◌, Option, none, some, List, arith, ◌==◌,
  if◌then◌else◌, get_elem?, add32, sub32,
}
use minima.Vfs.{VfsNode, NodeType}
use minima.Ext2.{Ext2Fs, Inode, read_block, get_inode, inode_at}

-- `mode_2_type`, of the four highest bits of a mode
abbrev pub type_of_bits : ℕ → NodeType
type_of_bits bits =
    if bits == 1
    then NodeType.nt_fifo
    else if bits == 2
    then NodeType.nt_dev_char
    else if bits == 4
    then NodeType.nt_dir
    else if bits == 6
    then NodeType.nt_dev_block
    else if bits == 8
    then NodeType.nt_file
    else if bits == 10
    then NodeType.nt_symlink
    else if bits == 12
    then NodeType.nt_socket
    else NodeType.nt_unknown

unfoldable pub mode_2_type : ℕ → NodeType
mode_2_type mode = type_of_bits (mode / 4096 % 16)

-- `struct ext2_node`
pub record Ext2Node : Type 0 where
  pub base : VfsNode
  pub inode : Inode

-- A node of the file system `fs_ptr`.
unfoldable pub get_node : (ℕ → Option (List ℕ)) → ℕ → Ext2Fs → ℕ → Option Ext2Node
get_node read_at fs_ptr fs i = elim (get_inode read_at fs i) [
  | none ↦ none
  | some inode ↦ some (record {
    base = record { fs = fs_ptr; id = i; mode = inode.mode; type = mode_2_type inode.mode };
    inode = inode;
  })
]

-- Where the blocks hold a whole number of inodes, get_inode of the k-th inode of a group reads the
-- block of that group's table with that inode and returns the inode in its slot there, and is an
-- error exactly when the block cannot be read.
get_inode-slot :
    (read_at : ℕ → Option (List ℕ)) (fs : Ext2Fs) (g k n start : ℕ)
    → 0 < n
    → 0 < fs.inode_size
    → fs.block_size ≡ n * fs.inode_size
    → k < fs.inodes_per_bgroup
    → g * fs.inodes_per_bgroup + k + 1 < 2 ^ 32
    → get_elem? fs.bdesc g ≡ some start
    → get_inode read_at fs (g * fs.inodes_per_bgroup + k + 1)
      ≡ elim (read_block read_at fs (add32 start (k / n))) [
        | none ↦ none
        | some block ↦ some (inode_at (k % n * fs.inode_size) block)
      ]
unfolding get_inode
get_inode-slot read_at fs g k n start hn hs whole hk small has =
    let p = fs.inodes_per_bgroup in
    let i = g * p + k in
    let before : sub32 (i + 1) 1 ≡ i = omega (arith, small) in
    let group : sub32 (i + 1) 1 / p ≡ g =
      ap (λ x. x / p) before
      ∙ omega (arith, mul-add-div_right {m = p} (omega arith) g k, div-eq_of_lt hk) in
    let idx : sub32 (i + 1) 1 % p ≡ k =
      ap (λ x. x % p) before ∙ omega (arith, mul-add-mod_self_right g p k, mod-eq_of_lt hk) in
    let blk : k * fs.inode_size / fs.block_size ≡ k / n =
      ap (λ b. k * fs.inode_size / b) whole ∙ mul-div-mul_right k n hs in
    let per : fs.block_size / fs.inode_size ≡ n =
      ap (λ b. b / fs.inode_size) whole ∙ mul-div_cancel n hs in
    let x = sub32 (i + 1) 1 % p in
    let in_table : Option ℕ → ℕ → ℕ → ℕ → Option Inode = λ table at_blk i_idx per_blk. elim table [
      | none ↦ none
      | some t ↦ elim (read_block read_at fs (add32 t at_blk)) [
        | none ↦ none
        | some block ↦ some (inode_at (i_idx % per_blk * fs.inode_size) block)
      ]
    ] in
    ap
      (λ j.
        in_table (get_elem? fs.bdesc j) (x * fs.inode_size / fs.block_size) x
          (fs.block_size / fs.inode_size))
      group
    ∙ ap (λ t. in_table t (x * fs.inode_size / fs.block_size) x (fs.block_size / fs.inode_size)) has
    ∙ ap
        (λ y.
          in_table (some start) (y * fs.inode_size / fs.block_size) y
            (fs.block_size / fs.inode_size))
        idx
    ∙ ap (λ y. in_table (some start) y k (fs.block_size / fs.inode_size)) blk
    ∙ ap (in_table (some start) (k / n) k) per
