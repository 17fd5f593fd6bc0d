-- ===== src/Memfs/Mount.antt =====
-- kernel/fs/mem.c, `memfs_mount`: it leaves its mount point as it is.
use minima.Base.{ℕ, ◌≡◌, ◌≢◌, refl, Option, List, ◌==◌, ne→not-==, false}
use minima.Vfs.{World, Result}
use minima.Vfs.Mounts.{Respects}
use minima.Memfs.{Own, memfs_mount, memfs_node_create}
use minima.Memfs.Ops.{memfs_ops}

-- Where every file system is a memfs whose unmounting leaves a node as it is, a memfs can be mounted on
-- that node, unless it is the place of the node that is allocated next.
pub memfs_ops-Respects :
    (kmalloc : ℕ → Option (List ℕ)) (memfs_unmount : World Own → ℕ → World Own × Result Unit)
    (w : World Own) (fs mp : ℕ)
    → mp ≢ w.own.fresh
    → ((v : World Own) → (memfs_unmount v fs).0.nodes mp ≡ v.nodes mp)
    → Respects (λ i. memfs_ops kmalloc memfs_unmount) w fs mp
unfolding memfs_ops memfs_mount memfs_node_create
memfs_ops-Respects kmalloc memfs_unmount w fs mp apart unmounts =
    let other : (mp == w.own.fresh) ≡ false = ne→not-== mp w.own.fresh apart in
    record {
      mount_node = rw other refl;
      mount_fs = refl;
      mount_done = refl;
      unmount_node = unmounts;
    }
