-- ===== src/Memfs/Ops.antt =====
-- kernel/fs/mem.c: the tables of operations that the layer above calls. Unmounting, which only frees,
-- and the buffers of kmalloc are parameters; the allocation of a file does not fail here.
use mathlib.Core.Option.{some-injective}
use minima.Base.{ℕ, sym, ap, Option, none, some, List, length}
use minima.Vfs.{World, VfsOps, VfsFileOps, VfsFile, Result}
use minima.Vfs.Keeps.{KeepNodes}
use minima.Memfs.{
  Own, memfs_mount, memfs_get_root, memfs_lookup, memfs_readdir, memfs_create, memfs_mkdir, set_mem,
}
use minima.Memfs.Data.{memfs_read, memfs_write, memfs_seek, memfs_stat, Write}

abbrev enomem : ℕ
enomem = 12

-- A write as a call on the world: nothing changes where it fails.
abbrev after_write : World Own → ℕ → ℕ → ℕ → Write → World Own × ℕ × Result ℕ
after_write w node offset n (Write.written bytes end) =
    (set_mem node (record (w.own.mem node) { bytes = bytes }) w, end, Result.done n)
after_write w node offset n Write.enomem = (w, offset, Result.error enomem)
after_write w node offset n Write.overruns = (w, offset, Result.panics)

module _ (kmalloc : ℕ → Option (List ℕ))
    (memfs_unmount : World Own → ℕ → World Own × Result Unit) where
  unfoldable pub memfs_file_ops : VfsFileOps Own
  memfs_file_ops = record {
    read = some (λ w node offset n.
        let (end, bytes) = memfs_read (w.own.mem node).bytes offset n in
        (w, end, Result.done bytes));
    read_at = none;
    write = some (λ w node offset buf.
        after_write w node offset (length buf)
          (memfs_write kmalloc (w.own.mem node).bytes offset buf));
    write_at = none;
    seek = some (λ w node at offset mode.
        let moved = memfs_seek (w.own.mem node).bytes at offset mode in (w, moved, moved));
    stat =
        some (λ w node at. (w, Result.done (memfs_stat (w.nodes node) (w.own.mem node).bytes at)));
  }

  unfoldable pub memfs_open : World Own → ℕ → World Own × Result (VfsFile Own)
  memfs_open w node = (w, Result.done (record { node = node; offset = 0; ops = memfs_file_ops }))

  unfoldable pub memfs_ops : VfsOps Own
  memfs_ops = record {
    mount = memfs_mount;
    unmount = memfs_unmount;
    lookup = some memfs_lookup;
    readdir = some memfs_readdir;
    open_node = some memfs_open;
    close = some (λ w file. (w, Result.done tt));
    create = some memfs_create;
    mkdir = some memfs_mkdir;
    get_root = memfs_get_root;
  }

  -- Where every file system is a memfs, their lookups leave the nodes as they are.
  pub memfs_ops-KeepNodes : KeepNodes (λ fs. memfs_ops)
  unfolding memfs_ops memfs_lookup
  memfs_ops-KeepNodes fs f e w dir name =
      ap (λ g. (g w dir name).0.nodes) (sym (some-injective _ _ e))
