-- ===== src/Tests/Disk.antt =====
-- kernel/fs/ext2/ext2.c and kernel/fs/dev.c at concrete inputs: a device of blocks of 64 bytes with a
-- file system whose blocks are of 128.
use minima.Base.{
  ℕ, zero, suc, ◌*◌, ◌≡◌, refl, false, Option, none, some, List, [], ◌∷◌, ◌++◌, arith, ◌==◌,
  if◌then◌else◌, replicate, add32,
}
use minima.Vfs.{Result, enoent}
use minima.Ext2.{Ext2Fs, Inode, read_block, read_parts, read_i_block, per_block}
use minima.Ext2.Index.{Place, index_of, follow, read_i_block-follow}
use minima.Ext2.Inodes.{Ext2Node, get_node}
use minima.Ext2.Files.{Reading, ext2_read}
use minima.Ext2.Spans.{span}
use minima.Ext2.Reads.{HasBlocks, ext2_read-first_bytes}
use minima.Ext2.Dirs.{DirEntry, iterate_dirents, block_entries, Looked, ext2_lookup}
use minima.Ext2.Names.{ext2_lookup-last_prefix}
use minima.Devfs.{Driver}
use minima.Devfs.Blocks.{on_device, run_of, read_block-run_of}

abbrev fs : Ext2Fs
fs = record {
  dev_block_size = 64;
  block_size = 128;
  inodes_per_bgroup = 4;
  inode_size = 64;
  required_features = 2;
  bdesc = 3 ∷ [];
}

-- a file of 1000 bytes with its first block at 5 and an indirect block at 6
abbrev file_inode : Inode
file_inode = record {
  mode = 32768;
  uid = 0;
  bytes_lsb = 1000;
  last_access = 0;
  create = 0;
  last_modify = 0;
  gid = 0;
  dir_entries = 1;
  dir_blocks = 5 ∷ 0 ∷ [];
  singly_linked = 6;
  doubly_linked = 0;
  triply_linked = 0;
}

abbrev file : Ext2Node
file = record {
  base = record { fs = 1; id = 12; mode = 32768; type = minima.Vfs.NodeType.nt_file };
  inode = file_inode;
}

-- The first part of block 5 holds an entry `a` for inode 2; all else is 0.
abbrev part : ℕ → List ℕ
part at = if at == 640 then 2 ∷ 0 ∷ 0 ∷ 0 ∷ 0 ∷ 0 ∷ 1 ∷ 2 ∷ 97 ∷ replicate 55 0 else replicate 64 0

abbrev read_at : ℕ → Option (List ℕ)
read_at at = some (part at)

abbrev block_5 : List ℕ
block_5 = part 640 ++ part 704

read_i_block-follow_example :
    read_i_block read_at fs file_inode (index_of (per_block fs) (Place.singly 5))
    ≡ follow read_at fs file_inode (Place.singly 5)
read_i_block-follow_example =
    read_i_block-follow read_at fs file_inode (Place.singly 5) (omega arith, omega arith)
      (omega arith)

file-HasBlocks : HasBlocks read_at fs file_inode (λ i. block_5) 100
unfolding read_i_block read_block read_parts
file-HasBlocks zero h = (refl, refl)
file-HasBlocks (suc i) h = absurd (omega arith)

-- The offset is a block on, and what is read is the beginning of the file.
ext2_read-first_bytes_example :
    ext2_read read_at fs 1 file 128 100
    ≡ (add32 128 100, Reading.stored (span (λ i. block_5) 128 0 100))
ext2_read-first_bytes_example =
    ext2_read-first_bytes read_at fs file (λ i. block_5) 1 128 100 (omega arith) refl (omega arith)
      (omega arith) (omega arith) file-HasBlocks

first_block : read_i_block read_at fs file_inode 0 ≡ some block_5
unfolding read_i_block read_block read_parts
first_block = refl

abbrev entry_a : DirEntry
entry_a = record { inode = 2; size = 0; name_length_lsb = 1; type = 2; name = 97 ∷ replicate 119 0 }

directory : iterate_dirents read_at fs file_inode.dir_blocks ≡ some (entry_a ∷ [])
unfolding iterate_dirents block_entries read_block read_parts
directory = refl

-- The name `ab` is looked up to the entry `a`.
ext2_lookup-last_prefix_example :
    ext2_lookup read_at fs 1 false file_inode (97 ∷ 98 ∷ []) ≡ elim (get_node read_at 1 fs 2) [
      | none ↦ Result.error enoent
      | some n ↦ Result.done (Looked.node n)
    ]
ext2_lookup-last_prefix_example =
    ext2_lookup-last_prefix read_at fs 1 false file_inode (97 ∷ 98 ∷ []) [] entry_a [] directory
      ((omega arith, omega arith), ((omega arith, omega arith), tt))
      (((omega arith, omega arith), tt), tt) (λ e. absurd cc) (λ e. absurd cc) refl tt

abbrev drive : Driver
drive = record {
  read = none;
  write = none;
  block_count = some (Result.done 100);
  block_size = some (Result.done 64);
  block_read = some (λ lba. Result.done (lba ∷ []));
  block_write = none;
}

read_block-run_of_example :
    read_block (on_device drive 64) fs 5 ≡ run_of (λ lba. Result.done (lba ∷ [])) (5 * 2) 2
read_block-run_of_example =
    read_block-run_of drive (λ lba. Result.done (lba ∷ [])) fs 2 5 refl refl (omega arith) refl
      (omega arith)
