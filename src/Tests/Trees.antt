-- ===== src/Tests/Trees.antt =====
-- kernel/fs/vfs.c, kernel/fs/mem.c and kernel/fs/dev.c at concrete inputs.
use mathlib.Core.Option.{some-injective}
use minima.Base.{
  ℕ, zero, suc, ◌+◌, ◌≡◌, ◌⊎◌, refl, Option, none, some, List, [], ◌∷◌, arith, ◌==◌, if◌then◌else◌,
  replicate, leb, length, inl, inr, Bool-cases, ap, sym, ◌∙◌,
}
use minima.Vfs.{World, VfsOps, NodeType, Result, vfs_lookup, vfs_get_cwd}
use minima.Vfs.Paths.{vfs_traverse, vfs_traverse-walk, start, origin, from_node, slash}
use minima.Tok.{tok_loop, v_tok_consume, skip_seps, until_sep}
use minima.Tok.Words.{words}
use minima.Vfs.Mounts.{vfs_mount, vfs_unmount, vfs_unmount-mount}
use minima.Vfs.Keeps.{Returns, vfs_lookup-nodes}
use minima.Utils.{strcmp}
use minima.Memfs.{Own, memfs_lookup, memfs_create, memfs_mkdir}
use minima.Memfs.Data.{memfs_write, Write}
use minima.Memfs.Writes.{Wrote, memfs_write-Wrote}
use minima.Memfs.Tree.{Added, memfs_create-Added}
use minima.Memfs.Mount.{memfs_ops-Respects}
use minima.Memfs.Ops.{memfs_ops, memfs_ops-KeepNodes}
use minima.Devfs

-- a file system in which every name leads to node 5, and whose root is node 1
abbrev still : ℕ → VfsOps ℕ
still fs = record {
  mount = λ w i. (w, Result.done tt);
  unmount = λ w i. (w, Result.done tt);
  lookup = some (λ w dir name. (w, Result.done 5));
  readdir = none;
  open_node = none;
  close = none;
  create = none;
  mkdir = none;
  get_root = λ w i. 1;
}

-- Every node is a directory of the file system 1, which is the root if one is.
abbrev place : ℕ → World ℕ
place root = record {
  nodes = λ i. record { fs = 1; id = i; type = NodeType.nt_dir; mode = 0 };
  fss = λ i. record { parent = 1; parent_node = 0 };
  root = root;
  cwd = 1;
  own = 0;
}

abbrev a_slash_b : List ℕ
a_slash_b = 97 ∷ slash ∷ 98 ∷ []

vfs_traverse-walk_example :
    vfs_traverse still 1 (place 1) 0 a_slash_b
    ≡ from_node still 1 (words slash a_slash_b) (origin still 1 (place 1) 0 a_slash_b)
vfs_traverse-walk_example = vfs_traverse-walk still 1 (place 1) 0 a_slash_b

-- a memfs with an empty directory at node 1, a child `a` of it at node 2, and node 9 to come
abbrev mem_place : World Own
mem_place = record {
  nodes = λ i. record { fs = 1; id = i; type = NodeType.nt_dir; mode = 0 };
  fss = λ i. record { parent = 1; parent_node = 0 };
  root = 1;
  cwd = 1;
  own = record {
    mem = λ i.
        if i == 1
        then record { name = slash ∷ []; up = 1; children = 2 ∷ []; bytes = [] }
        else record { name = 97 ∷ []; up = 1; children = []; bytes = [] };
    memfs = λ i. record { root = 1; last_id = 3 };
    fresh = 9;
  };
}

-- buffers of up to 100 bytes
abbrev kmalloc : ℕ → Option (List ℕ)
kmalloc n = if leb n 100 then some (replicate n 0) else none

abbrev unmount_nothing : World Own → ℕ → World Own × Result Unit
unmount_nothing w fs = (w, Result.done tt)

abbrev memfs : ℕ → VfsOps Own
memfs fs = memfs_ops kmalloc unmount_nothing

leads_to_2 : vfs_traverse memfs 1 mem_place 0 (97 ∷ []) ≡ (mem_place, Result.done 2)
unfolding vfs_traverse start vfs_lookup vfs_get_cwd tok_loop v_tok_consume skip_seps until_sep
    memfs_ops memfs_lookup strcmp minima.Memfs.look_up minima.Memfs.find_child minima.Utils.strncmp
leads_to_2 = refl

vfs_unmount-mount_example :
    ((vfs_mount memfs 1 mem_place 2 (97 ∷ [])).1 ≡ Result.done tt)
    × ((vfs_unmount memfs (vfs_mount memfs 1 mem_place 2 (97 ∷ [])).0 2).0.nodes 2
        ≡ mem_place.nodes 2)
vfs_unmount-mount_example =
    vfs_unmount-mount memfs 1 mem_place mem_place 2 2 (97 ∷ [])
      (memfs_ops-Respects kmalloc unmount_nothing mem_place 2 2 (omega arith) (λ v. refl))
      (omega arith) (omega arith) leads_to_2 refl

climbs :
    Returns
      (λ fs. memfs_ops kmalloc unmount_nothing)
      (vfs_lookup (λ fs. memfs_ops kmalloc unmount_nothing) 2 mem_place 1 (46 ∷ 46 ∷ [])).1
unfolding vfs_lookup memfs_ops memfs_lookup strcmp minima.Memfs.look_up minima.Utils.strncmp
climbs = tt

vfs_lookup-nodes_example :
    (vfs_lookup (λ fs. memfs_ops kmalloc unmount_nothing) 2 mem_place 1 (46 ∷ 46 ∷ [])).0.nodes
    ≡ mem_place.nodes
vfs_lookup-nodes_example =
    vfs_lookup-nodes (λ fs. memfs_ops kmalloc unmount_nothing) 2 mem_place 1 (46 ∷ 46 ∷ [])
      (memfs_ops-KeepNodes kmalloc unmount_nothing) climbs

length-replicate : (n : ℕ) → length {A = ℕ} (replicate n 0) ≡ n
length-replicate zero = refl
length-replicate (suc n) = omega (arith, length-replicate n)

kmalloc-length : (n : ℕ) (b : List ℕ) → kmalloc n ≡ some b → length b ≡ n
kmalloc-length n b h = elim (Bool-cases (leb n 100)) [
  | inl small ↦
      let e : kmalloc n ≡ some (replicate n 0) = rw small refl in
      ap length (sym (some-injective _ _ (sym e ∙ h))) ∙ length-replicate n
  | inr large ↦ let e : kmalloc n ≡ none = rw large refl in absurd cc
]

memfs_write-Wrote_example :
    ((memfs_write kmalloc (7 ∷ []) 3 (1 ∷ 2 ∷ []) ≡ Write.enomem) × (kmalloc (3 + 2) ≡ none))
    ⊎ ((bytes : List ℕ) × (memfs_write kmalloc (7 ∷ []) 3 (1 ∷ 2 ∷ [])
          ≡ Write.written bytes (3 + 2))
        × Wrote (7 ∷ []) 3 (1 ∷ 2 ∷ []) bytes)
memfs_write-Wrote_example =
    memfs_write-Wrote kmalloc (7 ∷ []) 3 (1 ∷ 2 ∷ []) kmalloc-length (omega arith) (omega arith)

memfs_create-Added_example :
    Added NodeType.nt_file mem_place 1 (98 ∷ []) 420 (memfs_create mem_place 1 (98 ∷ []) 420).0
    × Added NodeType.nt_dir mem_place 1 (98 ∷ []) 420 (memfs_mkdir mem_place 1 (98 ∷ []) 420).0
memfs_create-Added_example =
    memfs_create-Added mem_place 1 (98 ∷ []) 420 (omega arith, (omega arith, tt))
      (((omega arith, omega arith), tt), refl, refl)

abbrev dev_place : World minima.Devfs.Own
dev_place = record {
  nodes = λ i. record { fs = 1; id = i; type = NodeType.nt_dir; mode = 0 };
  fss = λ i. record { parent = 1; parent_node = 0 };
  root = 1;
  cwd = 1;
  own = record {
    root = 1;
    devices = 7 ∷ [];
    node = λ i. record { dev = i; type = minima.Devfs.DevfsNodeType.dev_char };
    device = λ i. record { name = 97 ∷ []; refs = 0 };
    fresh = 9;
  };
}
