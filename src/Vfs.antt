-- ===== src/Vfs.antt =====
-- kernel/fs/vfs.c, kernel/include/fs/vfs.h: the layer over the file systems. Nodes and file systems
-- are named by their pointers, and 0 is NULL; a name and an output are never NULL here. Each file
-- system gives a table of operations, in which an operation that may be missing is an option.
pub mod Files
pub mod Paths
pub mod Keeps
pub mod Mounts
use minima.Base.{
  ℕ, zero, suc, Bool, true, false, not, ◌&&◌, ◌||◌, Option, none, some, List, [], ◌∷◌, ◌==◌,
  if◌then◌else◌,
}
use minima.Utils.{strcmp}

-- `enum vfs_node_type`
pub data NodeType : Type 0 where
  nt_unknown : NodeType
  nt_file : NodeType
  nt_dir : NodeType
  nt_dev_char : NodeType
  nt_dev_block : NodeType
  nt_fifo : NodeType
  nt_socket : NodeType
  nt_symlink : NodeType
  nt_mountpoint : NodeType

abbrev pub is_dir : NodeType → Bool
is_dir NodeType.nt_dir = true
is_dir _ = false

abbrev pub is_mountpoint : NodeType → Bool
is_mountpoint NodeType.nt_mountpoint = true
is_mountpoint _ = false

-- `struct vfs_node` and `struct vfs`, whose table of operations is a parameter below
pub record VfsNode : Type 0 where
  pub fs : ℕ
  pub id : ℕ
  pub type : NodeType
  pub mode : ℕ

pub record Vfs : Type 0 where
  pub parent : ℕ
  pub parent_node : ℕ

-- The nodes, the file systems, `root`, the `cwd` of the running task, and what the file systems
-- keep to themselves.
pub record World (S : Type 0) : Type 0 where
  pub nodes : ℕ → VfsNode
  pub fss : ℕ → Vfs
  pub root : ℕ
  pub cwd : ℕ
  pub own : S

-- What a call returns: 0 and its output, or an error code without its sign; a failed assertion; or
-- the end of the fuel.
pub data Result (A : Type 0) : Type 0 where
  done : A → Result A
  error : ℕ → Result A
  panics : Result A
  out_of_fuel : Result A

abbrev pub einval : ℕ
einval = 2

abbrev pub enoent : ℕ
enoent = 3

abbrev pub eexist : ℕ
eexist = 5

abbrev pub enotsup : ℕ
enotsup = 11

abbrev pub enotdir : ℕ
enotdir = 13

-- `if (ret) return ret;` between two calls
abbrev pub and_then :
    {S A B : Type 0} → World S × Result A → (World S → A → World S × Result B) → World S × Result B
and_then (w, Result.done a) f = f w a
and_then (w, Result.error e) f = (w, Result.error e)
and_then (w, Result.panics) f = (w, Result.panics)
and_then (w, Result.out_of_fuel) f = (w, Result.out_of_fuel)

-- `struct vfs_stat`
pub record VfsStat : Type 0 where
  pub size : ℕ
  pub block_size : ℕ
  pub offset : ℕ
  pub id : ℕ
  pub mode : ℕ
  pub links : ℕ
  pub uid : ℕ
  pub gid : ℕ
  pub atime : ℕ
  pub mtime : ℕ
  pub ctime : ℕ

-- `struct vfs_file_ops`: each operation is given the node and the offset of the file; those that
-- move the offset return it. The count that a read returns is the length of what it has read.
pub record VfsFileOps (S : Type 0) : Type 0 where
  pub read : Option (World S → ℕ → ℕ → ℕ → World S × ℕ × Result (List ℕ))
  pub read_at : Option (World S → ℕ → ℕ → ℕ → World S × Result (List ℕ))
  pub write : Option (World S → ℕ → ℕ → List ℕ → World S × ℕ × Result ℕ)
  pub write_at : Option (World S → ℕ → List ℕ → ℕ → World S × Result ℕ)
  pub seek : Option (World S → ℕ → ℕ → ℕ → ℕ → World S × ℕ × ℕ)
  pub stat : Option (World S → ℕ → ℕ → World S × Result VfsStat)

-- `struct vfs_file`
pub record VfsFile (S : Type 0) : Type 0 where
  pub node : ℕ
  pub offset : ℕ
  pub ops : VfsFileOps S

-- `struct vfs_ops`; `open_node` is its `open`.
pub record VfsOps (S : Type 0) : Type 0 where
  pub mount : World S → ℕ → World S × Result Unit
  pub unmount : World S → ℕ → World S × Result Unit
  pub lookup : Option (World S → ℕ → List ℕ → World S × Result ℕ)
  pub readdir : Option (World S → ℕ → ℕ → World S × Result (List ℕ))
  pub open_node : Option (World S → ℕ → World S × Result (VfsFile S))
  pub close : Option (World S → VfsFile S → World S × Result Unit)
  pub create : Option (World S → ℕ → List ℕ → ℕ → World S × Result Unit)
  pub mkdir : Option (World S → ℕ → List ℕ → ℕ → World S × Result Unit)
  pub get_root : World S → ℕ → ℕ

abbrev pub set_at : {A : Type 0} → (ℕ → A) → ℕ → A → ℕ → A
set_at f i v j = if j == i then v else f j

abbrev pub set_node : {S : Type 0} → ℕ → VfsNode → World S → World S
set_node i n w = record w { nodes = set_at w.nodes i n }

abbrev pub set_fs : {S : Type 0} → ℕ → Vfs → World S → World S
set_fs i f w = record w { fss = set_at w.fss i f }

abbrev pub dotdot : List ℕ
dotdot = 46 ∷ 46 ∷ []

module _ {S : Type 0} (ops : ℕ → VfsOps S) where
  unfoldable pub vfs_get_root : World S → ℕ
  vfs_get_root w = (ops w.root).get_root w w.root

  unfoldable pub vfs_get_cwd : World S → World S
  vfs_get_cwd w = if w.cwd == 0 then record w { cwd = vfs_get_root w } else w

  -- `if (!dir) dir = vfs_get_cwd();`
  abbrev pub or_cwd : World S → ℕ → World S × ℕ
  or_cwd w dir = if dir == 0 then (vfs_get_cwd w, (vfs_get_cwd w).cwd) else (w, dir)

  -- `node->fs = stash` after the nested lookup, which a failed assertion never gets to
  abbrev pub restore : ℕ → ℕ → World S × Result ℕ → World S × Result ℕ
  restore node fs (w, Result.done found) =
      (set_node node (record (w.nodes node) { fs = fs }) w, Result.done found)
  restore node fs (w, Result.error e) =
      (set_node node (record (w.nodes node) { fs = fs }) w, Result.error e)
  restore node fs (w, Result.panics) = (w, Result.panics)
  restore node fs (w, Result.out_of_fuel) = (w, Result.out_of_fuel)

  -- What `vfs_lookup` does with the node that the file system found; `up` is its own recursive
  -- call.
  abbrev pub cross :
      (World S → ℕ → List ℕ → World S × Result ℕ) → List ℕ → World S → ℕ → World S × Result ℕ
  cross up name w node =
      let n = w.nodes node in
      let patched = record n { fs = (w.fss n.fs).parent } in
      if node == 0
      then (w, Result.panics)
      else if is_mountpoint n.type
      then (if strcmp name dotdot == 0
          then restore node n.fs (up (set_node node patched w) node name)
          else (w, Result.done ((ops n.fs).get_root w n.fs)))
      else (w, Result.done node)

  unfoldable pub vfs_lookup : ℕ → World S → ℕ → List ℕ → World S × Result ℕ
  vfs_lookup zero w dir name = (w, Result.out_of_fuel)
  vfs_lookup (suc fuel) w₀ dir₀ name =
      let (w, dir) = or_cwd w₀ dir₀ in
      let n = w.nodes dir in
      elim (ops n.fs).lookup [
        | none ↦ (w, Result.error enotsup)
        | some lookup ↦
            if not (is_dir n.type) && not (is_mountpoint n.type)
            then (w, Result.error enotdir)
            else and_then (lookup w dir name) (cross (vfs_lookup fuel) name)
      ]

  unfoldable pub vfs_readdir : World S → ℕ → ℕ → World S × Result (List ℕ)
  vfs_readdir w₀ dir₀ idx =
      let (w, dir) = or_cwd w₀ dir₀ in
      elim (ops (w.nodes dir).fs).readdir [
        | none ↦ (w, Result.error enotsup)
        | some readdir ↦ readdir w dir idx
      ]

  -- The end of `vfs_create` and `vfs_mkdir`: a lookup that does not fail is an error.
  abbrev pub if_missing :
      World S × Result ℕ → (World S → World S × Result Unit) → World S × Result Unit
  if_missing (w, Result.done node) make = (w, Result.error eexist)
  if_missing (w, Result.error e) make = make w
  if_missing (w, Result.panics) make = (w, Result.panics)
  if_missing (w, Result.out_of_fuel) make = (w, Result.out_of_fuel)

  unfoldable pub vfs_create : ℕ → World S → ℕ → List ℕ → ℕ → World S × Result Unit
  vfs_create fuel w₀ dir₀ name mode =
      let (w, dir) = or_cwd w₀ dir₀ in
      elim (ops (w.nodes dir).fs).create [
        | none ↦ (w, Result.error enotsup)
        | some create ↦ if_missing (vfs_lookup fuel w dir name) (λ w'. create w' dir name mode)
      ]

  unfoldable pub vfs_mkdir : ℕ → World S → ℕ → List ℕ → ℕ → World S × Result Unit
  vfs_mkdir fuel w₀ dir₀ name mode =
      let (w, dir) = or_cwd w₀ dir₀ in
      elim (ops (w.nodes dir).fs).mkdir [
        | none ↦ (w, Result.error enotsup)
        | some mkdir ↦ if_missing (vfs_lookup fuel w dir name) (λ w'. mkdir w' dir name mode)
      ]
