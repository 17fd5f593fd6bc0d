-- ===== src/Ext2/Dirs.antt =====
-- kernel/fs/ext2/ext2.c: the entries of directories, and the lookup and listing of names by them.
use minima.Base.{
  ℕ, zero, suc, ◌+◌, ◌*◌, ◌/◌, ◌%◌, Bool, ◌&&◌, Option, none, some, List, [], ◌∷◌, ◌++◌, ◌==◌, ltb,
  if◌then◌else◌, get_or, take, drop, length,
}
use minima.Utils.{strncmp}
use minima.Vfs.{Result, enoent}
use minima.Ext2.{Ext2Fs, Inode, le16, le32, read_block}
use minima.Ext2.Inodes.{Ext2Node, get_node}

-- `struct dir_entry`; the name goes on to the end of the block, where one that its length takes past
-- it, which the source reads on with, is cut.
pub record DirEntry : Type 0 where
  pub inode : ℕ
  pub size : ℕ
  pub name_length_lsb : ℕ
  pub type : ℕ
  pub name : List ℕ

abbrev pub entry_at : List ℕ → ℕ → DirEntry
entry_at block off = record {
  inode = le32 block off;
  size = le16 block (off + 4);
  name_length_lsb = get_or block (off + 6) 0;
  type = get_or block (off + 7) 0;
  name = drop (off + 8) block;
}

-- `name_len`, with or without EXT2_REQ_DIR_TYPE_FIELD, the bit of value 2
abbrev pub name_len : Ext2Fs → DirEntry → ℕ
name_len fs e =
    if fs.required_features / 2 % 2 == 1
    then e.name_length_lsb
    else e.type * 256 + e.name_length_lsb

-- The inner loop of `iterate_dirents`: the entries of a block that are in use, from an offset on;
-- none if the head of an entry lies past the end of the block. Every round moves on, so that as
-- many rounds as the block has bytes are enough.
unfoldable pub block_entries : Ext2Fs → List ℕ → ℕ → ℕ → Option (List DirEntry)
block_entries fs block zero off = if ltb off fs.block_size then none else some []
block_entries fs block (suc fuel) off =
    let e = entry_at block off in
    let rest =
      block_entries fs block fuel (off + (if e.size == 0 then fs.block_size else e.size)) in
    if ltb off fs.block_size
    then (if ltb fs.block_size (off + 8)
        then none
        else if e.inode == 0
        then rest
        else elim rest [ none ↦ none | some es ↦ some (e ∷ es) ])
    else some []

-- `lookup_cb`, with `*c->out`, which is NULL when the node cannot be read
unfoldable pub lookup_cb :
    (ℕ → Option (List ℕ)) → ℕ → Ext2Fs → List ℕ → DirEntry → Option Ext2Node → Option Ext2Node
lookup_cb read_at fs_ptr fs name e out =
    if strncmp name e.name (name_len fs e) == 0 then get_node read_at fs_ptr fs e.inode else out

-- `readdir_cb`, with `c->iter` and `*c->name_out`
unfoldable pub readdir_cb : Ext2Fs → ℕ → DirEntry → ℕ × Option (List ℕ) → ℕ × Option (List ℕ)
readdir_cb fs idx e (iter, name_out) =
    (iter + 1, if iter == idx then some (take (name_len fs e) e.name) else name_out)

-- the calls of a callback in their order
abbrev pub for_each : {C : Type 0} → (DirEntry → C → C) → List DirEntry → C → C
for_each cb [] c = c
for_each cb (e ∷ es) c = for_each cb es (cb e c)

-- What `ext2_lookup` puts out: the directory itself, the node that the file system is mounted
-- on, or a node it has read.
pub data Looked : Type 0 where
  itself : Looked
  parent_node : Looked
  node : Ext2Node → Looked

module _ (read_at : ℕ → Option (List ℕ)) (fs : Ext2Fs) where
  -- The outer loop of `iterate_dirents`: all entries that the callback is given, over the direct
  -- blocks up to a 0 or to a block that cannot be read; none if it comes past the twelve of them.
  unfoldable pub iterate_dirents : List ℕ → Option (List DirEntry)
  iterate_dirents [] = none
  iterate_dirents (a ∷ dir_blocks) =
      let rest = iterate_dirents dir_blocks in
      if a == 0 then some [] else elim (read_block read_at fs a) [
        | none ↦ some []
        | some block ↦ elim (block_entries fs block fs.block_size 0) [
          | none ↦ none
          | some es ↦ elim rest [ none ↦ none | some more ↦ some (es ++ more) ]
        ]
      ]

  -- `is_root` is `d == fs->root`.
  unfoldable pub ext2_lookup : ℕ → Bool → Inode → List ℕ → Result Looked
  ext2_lookup fs_ptr is_root dir name =
      if (length name == 1) && (get_or name 0 0 == 46)
      then Result.done Looked.itself
      else if is_root && (length name == 2) && (strncmp name (46 ∷ 46 ∷ []) 2 == 0)
      then Result.done Looked.parent_node
      else elim (iterate_dirents dir.dir_blocks) [
        | none ↦ Result.panics
        | some es ↦ elim (for_each (lookup_cb read_at fs_ptr fs name) es none) [
          | none ↦ Result.error enoent
          | some n ↦ Result.done (Looked.node n)
        ]
      ]

  -- `was_set` is whether `*name_out` is other than NULL before the call: only then is the name put
  -- out.
  unfoldable pub ext2_readdir : Bool → Inode → ℕ → Result (Option (List ℕ))
  ext2_readdir was_set dir idx = elim (iterate_dirents dir.dir_blocks) [
    | none ↦ Result.panics
    | some es ↦ elim (for_each (readdir_cb fs idx) es (0, none)).1 [
      | none ↦ Result.error enoent
      | some name ↦ Result.done (if was_set then some name else none)
    ]
  ]
