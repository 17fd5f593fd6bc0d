-- ===== src/Vfs/Mounts.antt =====
-- kernel/fs/vfs.c: mounting and unmounting.
use minima.Base.{
  arith, ℕ, ◌≡◌, ◌≢◌, refl, sym, ap, ◌∙◌, true, not, ◌&&◌, List, [], ◌∷◌, ◌==◌, if◌then◌else◌,
  ==_refl, ne→not-==, Bool-cases, inl, inr,
}
use minima.Utils.{strcmp}
use minima.Vfs.{
  World, Vfs, VfsNode, VfsOps, NodeType, Result, and_then, is_mountpoint, set_node, set_fs, set_at,
  is_dir, enotdir,
}
use minima.Vfs.Paths.{vfs_traverse, slash}

-- A world in which a file system is told its mount point.
abbrev pub told_parent : {S : Type 0} → World S → ℕ → ℕ → World S
told_parent w fs mp = set_fs fs (record { parent_node = mp; parent = (w.nodes mp).fs }) w

module _ {S : Type 0} (ops : ℕ → VfsOps S) where
  -- `vfs_mount` on the node that the path leads to
  abbrev pub mount_at : ℕ → World S → ℕ → World S × Result Unit
  mount_at fs w mp =
      let n = w.nodes mp in
      if not (is_dir n.type)
      then (w, Result.error enotdir)
      else let given : Vfs = record { parent_node = mp; parent = n.fs } in
        and_then ((ops fs).mount (set_fs fs given w) fs) (λ w' _. (
          set_node mp (record (w'.nodes mp) { type = NodeType.nt_mountpoint; fs = fs }) w',
          Result.done tt,
        ))

  unfoldable pub vfs_mount : ℕ → World S → ℕ → List ℕ → World S × Result Unit
  vfs_mount fuel w fs mountpoint =
      if (w.root == 0) && (strcmp mountpoint (slash ∷ []) == 0)
      then and_then ((ops fs).mount w fs) (λ w' _. (
        set_fs fs (record (w'.fss fs) { parent_node = (ops fs).get_root w' fs })
            (record w' { root = fs }),
        Result.done tt,
      ))
      else and_then (vfs_traverse ops fuel w 0 mountpoint) (mount_at fs)

  -- The end of `vfs_unmount`.
  abbrev pub forget_root : ℕ → World S → Unit {0} → World S × Result Unit
  forget_root fs w _ = (if fs == w.root then record w { root = 0 } else w, Result.done tt)

  -- `vfs_unmount`, given what the file system is told of its parent
  abbrev unmount_from : Vfs → World S → ℕ → World S × Result Unit
  unmount_from f w fs =
      let n = w.nodes f.parent_node in
      let back = set_node f.parent_node (record n { type = NodeType.nt_dir; fs = f.parent }) w in
      if f.parent_node == 0
      then and_then ((ops fs).unmount w fs) (forget_root fs)
      else if is_mountpoint n.type
      then and_then ((ops fs).unmount back fs) (forget_root fs)
      else (w, Result.panics)

  unfoldable pub vfs_unmount : World S → ℕ → World S × Result Unit
  vfs_unmount w fs = unmount_from (w.fss fs) w fs

  -- A file system that is told its mount point in this world mounts there, and leaves the node of the
  -- mount point and what it is told as they are; it leaves that node as it is when it unmounts, too.
  pub record Respects (w : World S) (fs mp : ℕ) : Type 0 where
    pub mount_node : ((ops fs).mount (told_parent w fs mp) fs).0.nodes mp ≡ w.nodes mp
    pub mount_fs : ((ops fs).mount (told_parent w fs mp) fs).0.fss fs ≡ (told_parent w fs mp).fss fs
    pub mount_done : ((ops fs).mount (told_parent w fs mp) fs).1 ≡ Result.done tt
    pub unmount_node : (v : World S) → ((ops fs).unmount v fs).0.nodes mp ≡ v.nodes mp

  -- the world after `vfs_mount`
  abbrev mounted : World S → ℕ → ℕ → World S
  mounted w fs mp =
      let given : Vfs = record { parent_node = mp; parent = (w.nodes mp).fs } in
      let w' = ((ops fs).mount (set_fs fs given w) fs).0 in
      set_node mp (record (w'.nodes mp) { type = NodeType.nt_mountpoint; fs = fs }) w'

  and_then-done :
      {A B : Type 0} (r : World S × Result A) (a : A) (f : World S → A → World S × Result B)
      → r.1 ≡ Result.done a
      → and_then r f ≡ f r.0 a
  and_then-done (w, ret) a f e = ap (λ r. and_then (w, r) f) e

  forget_root-node :
      (fs mp : ℕ) (r : World S × Result Unit)
      → (and_then r (forget_root fs)).0.nodes mp ≡ r.0.nodes mp
  forget_root-node fs mp (w, Result.done u) = elim (Bool-cases (fs == w.root)) [
    | inl e ↦ rw e refl
    | inr e ↦ rw e refl
  ]
  forget_root-node fs mp (w, Result.error e) = refl
  forget_root-node fs mp (w, Result.panics) = refl
  forget_root-node fs mp (w, Result.out_of_fuel) = refl

  mount_at-mounted :
      (w : World S) (fs mp : ℕ)
      → Respects w fs mp
      → (w.nodes mp).type ≡ NodeType.nt_dir
      → mount_at fs w mp ≡ (mounted w fs mp, Result.done tt)
  mount_at-mounted w fs mp keeps dir =
      let given : Vfs = record { parent_node = mp; parent = (w.nodes mp).fs } in
      let r = (ops fs).mount (set_fs fs given w) fs in
      let f : World S → Unit {0} → World S × Result Unit = λ w' _. (
        set_node mp (record (w'.nodes mp) { type = NodeType.nt_mountpoint; fs = fs }) w',
        Result.done tt,
      ) in
      ap (λ t. if not (is_dir t) then (w, Result.error enotdir) else and_then r f) dir
      ∙ and_then-done r tt f keeps.mount_done

  vfs_unmount-node :
      (w : World S) (f : Vfs) (fs : ℕ)
      → ((v : World S) → ((ops fs).unmount v fs).0.nodes f.parent_node ≡ v.nodes f.parent_node)
      → w.fss fs ≡ f
      → f.parent_node ≢ 0
      → (w.nodes f.parent_node).type ≡ NodeType.nt_mountpoint
      → (vfs_unmount w fs).0.nodes f.parent_node
        ≡ record (w.nodes f.parent_node) { type = NodeType.nt_dir; fs = f.parent }
  unfolding vfs_unmount
  vfs_unmount-node w f fs keeps told nonzero is_mp =
      let mp = f.parent_node in
      let n : VfsNode = record (w.nodes mp) { type = NodeType.nt_dir; fs = f.parent } in
      let back = set_node mp n w in
      let there : unmount_from f w fs ≡ and_then ((ops fs).unmount back fs) (forget_root fs) =
        rw (ne→not-== mp 0 nonzero) (
          ap
            (λ t.
              if is_mountpoint t
              then and_then ((ops fs).unmount back fs) (forget_root fs)
              else (w, Result.panics))
            is_mp) in
      let same : set_at w.nodes mp n mp ≡ n = rw (==_refl mp) refl in
      ap (λ g. (unmount_from g w fs).0.nodes mp) told
      ∙ ap (λ r. r.0.nodes mp) there
      ∙ forget_root-node fs mp ((ops fs).unmount back fs)
      ∙ keeps back
      ∙ same

  unmount-mounted :
      (w : World S) (fs mp : ℕ)
      → Respects w fs mp
      → mp ≢ 0
      → (w.nodes mp).type ≡ NodeType.nt_dir
      → (vfs_unmount (mounted w fs mp) fs).0.nodes mp ≡ w.nodes mp
  unmount-mounted w fs mp keeps nonzero dir =
      let given : Vfs = record { parent_node = mp; parent = (w.nodes mp).fs } in
      let w₁ = ((ops fs).mount (set_fs fs given w) fs).0 in
      let n : VfsNode = record (w₁.nodes mp) { type = NodeType.nt_mountpoint; fs = fs } in
      let here : (mounted w fs mp).nodes mp ≡ n = rw (==_refl mp) refl in
      let told : (mounted w fs mp).fss fs ≡ given = keeps.mount_fs ∙ rw (==_refl fs) refl in
      let as_dir : VfsNode → VfsNode =
        λ m. record m { type = NodeType.nt_dir; fs = (w.nodes mp).fs } in
      vfs_unmount-node (mounted w fs mp) given fs keeps.unmount_node told nonzero
        (ap (λ m. m.type) here)
      ∙ ap as_dir here
      ∙ ap as_dir keeps.mount_node
      ∙ ap (λ t. record (w.nodes mp) { type = t }) (sym dir)

  -- Where there is a root, the path leads to a directory, and the file system, told that node,
  -- mounts without an error and without a change of the node or of what it is told, and leaves the
  -- node as it is when it unmounts, vfs_mount succeeds, and vfs_unmount right after it gives the
  -- directory back as it was.
  pub vfs_unmount-mount :
      (fuel : ℕ) (w w' : World S) (fs mp : ℕ) (path : List ℕ)
      → Respects w' fs mp
      → mp ≢ 0
      → w.root ≢ 0
      → vfs_traverse ops fuel w 0 path ≡ (w', Result.done mp)
      → (w'.nodes mp).type ≡ NodeType.nt_dir
      → ((vfs_mount fuel w fs path).1 ≡ Result.done tt)
        × ((vfs_unmount (vfs_mount fuel w fs path).0 fs).0.nodes mp ≡ w'.nodes mp)
  unfolding vfs_mount
  vfs_unmount-mount fuel w w' fs mp path keeps nonzero rooted leads dir =
      let done_ : vfs_mount fuel w fs path ≡ (mounted w' fs mp, Result.done tt) =
        rw (ne→not-== w.root 0 rooted) (ap (λ r. and_then r (mount_at fs)) leads)
        ∙ mount_at-mounted w' fs mp keeps dir in
      (
        ap (λ r. r.1) done_,
        ap (λ r. (vfs_unmount r.0 fs).0.nodes mp) done_
            ∙ unmount-mounted w' fs mp keeps nonzero dir,
      )

  -- Where the file system that is to be the root mounts and its root is a node that is a directory
  -- and not NULL, vfs_mount of it on "/" makes it the root, and vfs_unmount of it right after that
  -- panics.
  pub vfs_unmount-root_panics :
      (fuel : ℕ) (w w' : World S) (fs : ℕ)
      → w.root ≡ 0
      → (ops fs).mount w fs ≡ (w', Result.done tt)
      → (ops fs).get_root w' fs ≢ 0
      → (w'.nodes ((ops fs).get_root w' fs)).type ≡ NodeType.nt_dir
      → ((vfs_mount fuel w fs (slash ∷ [])).0.root ≡ fs)
        × ((vfs_unmount (vfs_mount fuel w fs (slash ∷ [])).0 fs).1 ≡ Result.panics)
  unfolding vfs_mount vfs_unmount strcmp
  vfs_unmount-root_panics fuel w w' fs fresh mounts nonzero dir =
      let r = (ops fs).get_root w' fs in
      let f : Vfs = record (w'.fss fs) { parent_node = r } in
      let m : World S = set_fs fs f (record w' { root = fs }) in
      let is_fresh : (w.root == 0) ≡ true = ground (arith, fresh) in
      let e : vfs_mount fuel w fs (slash ∷ []) ≡ (m, Result.done tt) = rw is_fresh (
        ap
          (λ r. and_then r (λ w' _. (
            set_fs fs (record (w'.fss fs) { parent_node = (ops fs).get_root w' fs })
                (record w' { root = fs }),
            Result.done tt,
          )))
          mounts) in
      let n = m.nodes r in
      let back = set_node r (record n { type = NodeType.nt_dir; fs = f.parent }) m in
      let panic : (unmount_from f m fs).1 ≡ Result.panics = rw (ne→not-== r 0 nonzero) (
        ap
          (λ t.
            (if is_mountpoint t
              then and_then ((ops fs).unmount back fs) (forget_root fs)
              else (m, Result.panics)).1)
          dir) in
      let told : m.fss fs ≡ f = rw (==_refl fs) refl in
      (
        ap (λ r. r.0.root) e,
        ap (λ r. (vfs_unmount r.0 fs).1) e ∙ ap (λ g. (unmount_from g m fs).1) told ∙ panic,
      )
