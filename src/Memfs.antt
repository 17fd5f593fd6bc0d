-- ===== src/Memfs.antt =====
-- kernel/fs/mem.c: the file system in memory. A `struct memfs_node` is a node of the layer above
-- and what is kept here under the same pointer; the chain of `children` over `next` is a list, and
-- `data` a list of as many bytes as `capacity`. Unmounting, which only frees, is left out.
pub mod Ops
pub mod Data
pub mod Writes
pub mod Tree
pub mod Mount
use minima.Base.{
  ℕ, zero, suc, ◌+◌, ◌-◌, min, Bool, true, false, ◌&&◌, Option, none, some, List, [], ◌∷◌, ◌++◌,
  ◌==◌, ltb, leb, if◌then◌else◌, length, get_elem?, get_or, take, drop, add32, sub32,
}
use minima.Utils.{strcmp, strncmp}
use minima.Vfs.{World, VfsNode, VfsStat, NodeType, Result, enoent, set_at, set_node}

-- the rest of `struct memfs_node`
pub record MemfsNode : Type 0 where
  pub name : List ℕ
  pub up : ℕ
  pub children : List ℕ
  pub bytes : List ℕ

-- `struct memfs`, by its pointer; and the address that `kzalloc` gives out next, which is not NULL.
pub record Memfs : Type 0 where
  pub root : ℕ
  pub last_id : ℕ

pub record Own : Type 0 where
  pub mem : ℕ → MemfsNode
  pub memfs : ℕ → Memfs
  pub fresh : ℕ

abbrev pub set_mem : ℕ → MemfsNode → World Own → World Own
set_mem i n w = record w { own = record w.own { mem = set_at w.own.mem i n } }

abbrev pub set_memfs : ℕ → Memfs → World Own → World Own
set_memfs i fs w = record w { own = record w.own { memfs = set_at w.own.memfs i fs } }

-- The new node, whose fields that are not set are 0.
unfoldable pub memfs_node_create : World Own → ℕ → List ℕ → NodeType → World Own × ℕ
memfs_node_create w fs name type =
    let n = w.own.fresh in
    let f = w.own.memfs fs in
    let made : World Own =
      set_mem n (record { name = name; up = 0; children = []; bytes = [] })
        (set_node n (record { fs = fs; id = f.last_id; type = type; mode = 0 }) w) in
    let counted : World Own = set_memfs fs (record f { last_id = add32 f.last_id 1 }) made in
    (record counted { own = record counted.own { fresh = suc n } }, n)

unfoldable pub memfs_mount : World Own → ℕ → World Own × Result Unit
memfs_mount w fs =
    let (w₁, n) = memfs_node_create w fs (47 ∷ []) NodeType.nt_dir in
    let parent = (w₁.fss fs).parent_node in
    let w₂ : World Own = set_memfs fs (record (w₁.own.memfs fs) { root = n }) w₁ in
    let w₃ : World Own =
      set_mem n (record (w₂.own.mem n) { up = if parent == 0 then n else parent }) w₂ in
    (set_node n (record (w₃.nodes n) { mode = 493 }) w₃, Result.done tt)

unfoldable pub memfs_get_root : World Own → ℕ → ℕ
memfs_get_root w fs = (w.own.memfs fs).root

-- The loop of `memfs_lookup`.
unfoldable pub find_child : (ℕ → MemfsNode) → List ℕ → List ℕ → Option ℕ
find_child mem name [] = none
find_child mem name (c ∷ children) =
    let rest = find_child mem name children in
    if strcmp (mem c).name name == 0 then some c else rest

-- What `memfs_lookup` finds in a directory with a parent and children.
unfoldable pub look_up : (ℕ → MemfsNode) → ℕ → ℕ → List ℕ → List ℕ → Result ℕ
look_up mem dir up children name =
    if (length name == 1) && (get_or name 0 0 == 46)
    then Result.done dir
    else if (length name == 2) && (strncmp name (46 ∷ 46 ∷ []) 2 == 0)
    then Result.done up
    else elim (find_child mem name children) [ none ↦ Result.error enoent | some c ↦ Result.done c ]

unfoldable pub memfs_lookup : World Own → ℕ → List ℕ → World Own × Result ℕ
memfs_lookup w dir name = let d = w.own.mem dir in (w, look_up w.own.mem dir d.up d.children name)

-- The loop of `memfs_readdir`, from the i-th child on.
unfoldable pub nth_child : ℕ → ℕ → List ℕ → Option ℕ
nth_child idx i [] = none
nth_child idx i (c ∷ children) =
    let rest = nth_child idx (suc i) children in if i == idx then some c else rest

unfoldable pub memfs_readdir : World Own → ℕ → ℕ → World Own × Result (List ℕ)
memfs_readdir w dir idx =
    if idx == 0
    then (w, Result.done (46 ∷ []))
    else if idx == 1
    then (w, Result.done (46 ∷ 46 ∷ []))
    else (
      w,
      elim (nth_child (idx - 2) 0 (w.own.mem dir).children) [
        | none ↦ Result.error enoent
        | some c ↦ Result.done (w.own.mem c).name
      ],
    )

unfoldable pub memfs_add_child : ℕ → ℕ → World Own → World Own
memfs_add_child parent child w =
    let w' : World Own = set_mem child (record (w.own.mem child) { up = parent }) w in
    let p = w'.own.mem parent in set_mem parent (record p { children = child ∷ p.children }) w'

-- `memfs_create` and `memfs_mkdir` differ in the type of the node.
abbrev pub add_new : NodeType → World Own → ℕ → List ℕ → ℕ → World Own × Result Unit
add_new type w dir name mode =
    let (w₁, n) = memfs_node_create w (w.nodes dir).fs name type in
    let w₂ : World Own = set_node n (record (w₁.nodes n) { mode = mode }) w₁ in
    (memfs_add_child dir n w₂, Result.done tt)

unfoldable pub memfs_create : World Own → ℕ → List ℕ → ℕ → World Own × Result Unit
memfs_create w dir name mode = add_new NodeType.nt_file w dir name mode

unfoldable pub memfs_mkdir : World Own → ℕ → List ℕ → ℕ → World Own × Result Unit
memfs_mkdir w dir name mode = add_new NodeType.nt_dir w dir name mode
