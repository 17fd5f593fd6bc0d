-- ===== src/Devfs.antt =====
-- kernel/fs/dev.c: the file system of devices. What the drivers provide is a table of optional
-- calls for each device, which return an error code without its sign or what they have read; a
-- device is used by one task at a time here, so the semaphores of the source do nothing.
pub mod Listing
pub mod Blocks
use minima.Base.{
  ℕ, zero, suc, ◌+◌, ◌-◌, ◌*◌, ◌/◌, ◌%◌, Bool, true, false, not, ◌&&◌, ◌||◌, Option, none, some,
  List, [], ◌∷◌, ◌==◌, if◌then◌else◌, length, get_or, add32, sub32, mul32,
}
use minima.Utils.{strcmp, strncmp}
use minima.Vfs.{World, VfsNode, VfsStat, NodeType, Result, enoent, enotsup, set_at, set_node}

-- `enum devfs_node_type`
pub data DevfsNodeType : Type 0 where
  dev_unknown : DevfsNodeType
  dev_char : DevfsNodeType
  dev_block : DevfsNodeType

-- the rest of `struct devfs_node`, and `struct device`
pub record DevfsNode : Type 0 where
  pub dev : ℕ
  pub type : DevfsNodeType

pub record Device : Type 0 where
  pub name : List ℕ
  pub refs : ℕ

-- `struct devfs` and the nodes and devices by their pointers; `devices` is the chain of nodes, and
-- `fresh` the address that kmalloc gives out next. The root is a node within the file system.
pub record Own : Type 0 where
  pub root : ℕ
  pub devices : List ℕ
  pub node : ℕ → DevfsNode
  pub device : ℕ → Device
  pub fresh : ℕ

-- the calls of `struct dev_char` and of `struct dev_block`
pub record Driver : Type 0 where
  pub read : Option (ℕ → Result (List ℕ))
  pub write : Option (List ℕ → Result ℕ)
  pub block_count : Option (Result ℕ)
  pub block_size : Option (Result ℕ)
  pub block_read : Option (ℕ → Result (List ℕ))
  pub block_write : Option (ℕ → List ℕ → Result Unit)

unfoldable pub devfs_read : DevfsNodeType → Driver → ℕ → Result (List ℕ)
devfs_read DevfsNodeType.dev_char dev n = elim dev.read [
  | none ↦ Result.done []
  | some read ↦ read n
]
devfs_read DevfsNodeType.dev_block dev n = Result.error enotsup
devfs_read DevfsNodeType.dev_unknown dev n = Result.panics

unfoldable pub devfs_write : DevfsNodeType → Driver → List ℕ → Result ℕ
devfs_write DevfsNodeType.dev_char dev buf = elim dev.write [
  | none ↦ Result.done 0
  | some write ↦ write buf
]
devfs_write DevfsNodeType.dev_block dev buf = Result.error enotsup
devfs_write DevfsNodeType.dev_unknown dev buf = Result.panics

abbrev pub or_enotsup : Option (Result ℕ) → Result ℕ
or_enotsup none = Result.error enotsup
or_enotsup (some ret) = ret

unfoldable pub devfs_get_block_size : Driver → Result ℕ
devfs_get_block_size dev = or_enotsup dev.block_size

unfoldable pub devfs_get_block_count : Driver → Result ℕ
devfs_get_block_count dev = or_enotsup dev.block_count

-- `if (ret < 0) return ret;`
abbrev pub bind_result : {A B : Type 0} → Result A → (A → Result B) → Result B
bind_result (Result.done a) f = f a
bind_result (Result.error e) f = Result.error e
bind_result Result.panics f = Result.panics
bind_result Result.out_of_fuel f = Result.out_of_fuel

abbrev pub stat_of : VfsNode → ℕ → ℕ → ℕ → VfsStat
stat_of n size block_size offset = record {
  size = size;
  block_size = block_size;
  offset = offset;
  id = n.id;
  mode = n.mode;
  links = 1;
  uid = 1000;
  gid = 1000;
  atime = 0;
  mtime = 0;
  ctime = 0;
}

unfoldable pub devfs_stat : VfsNode → DevfsNodeType → Driver → ℕ → Result VfsStat
devfs_stat n DevfsNodeType.dev_char dev offset = Result.done (stat_of n 0 1 0)
devfs_stat n DevfsNodeType.dev_block dev offset =
    bind_result (devfs_get_block_size dev) (λ block_size.
      bind_result (devfs_get_block_count dev)
        (λ block_count. Result.done (stat_of n (mul32 block_count block_size) block_size offset)))
devfs_stat n DevfsNodeType.dev_unknown dev offset = Result.error enotsup

-- The assertions of `devfs_read_at` and `devfs_write_at` on a block size, which is divided by.
abbrev pub is_block : ℕ → ℕ → ℕ → Bool
is_block block_size n at = not (block_size == 0) && (n == block_size) && (at % block_size == 0)

unfoldable pub devfs_read_at : Driver → ℕ → ℕ → Result (List ℕ)
devfs_read_at dev n at = elim dev.block_read [
  | none ↦ Result.error enotsup
  | some block_read ↦ bind_result (devfs_get_block_size dev) (λ block_size.
      if is_block block_size n at then block_read (at / block_size) else Result.panics)
]

unfoldable pub devfs_write_at : Driver → List ℕ → ℕ → Result Unit
devfs_write_at dev buf at = elim dev.block_write [
  | none ↦ Result.error enotsup
  | some block_write ↦ bind_result (devfs_get_block_size dev) (λ block_size.
      if is_block block_size (length buf) at
      then block_write (at / block_size) buf
      else Result.panics)
]

unfoldable pub devfs_mount : World Own → ℕ → World Own × Result Unit
devfs_mount w fs = (
  set_node w.own.root (record { fs = fs; id = 0; mode = 438; type = NodeType.nt_dir }) w,
  Result.done tt,
)

unfoldable pub devfs_unmount : World Own → ℕ → World Own × Result Unit
devfs_unmount w fs = (w, Result.error enotsup)

-- The loop of `devfs_lookup`.
unfoldable pub find_device : Own → List ℕ → List ℕ → Option ℕ
find_device own name [] = none
find_device own name (d ∷ devices) =
    let rest = find_device own name devices in
    if strcmp (own.device (own.node d).dev).name name == 0 then some d else rest

unfoldable pub devfs_lookup : World Own → ℕ → List ℕ → World Own × Result ℕ
devfs_lookup w dir name = (
  w,
  if (length name == 1) && (get_or name 0 0 == 46)
      then Result.done dir
      else if (dir == w.own.root) && (length name == 2) && (strncmp name (46 ∷ 46 ∷ []) 2 == 0)
      then Result.done (w.fss (w.nodes dir).fs).parent_node
      else elim (find_device w.own name w.own.devices) [
        | none ↦ Result.error enoent
        | some d ↦ Result.done d
      ],
)

-- The loop of `devfs_readdir`, with `cur`.
unfoldable pub nth_device : ℕ → ℕ → List ℕ → Option ℕ
nth_device idx cur [] = none
nth_device idx cur (d ∷ devices) =
    let rest = nth_device idx (cur + 1) devices in if cur == idx then some d else rest

unfoldable pub devfs_readdir : World Own → ℕ → ℕ → World Own × Result (List ℕ)
devfs_readdir w dir idx = (
  w,
  elim (nth_device (sub32 idx 2) 0 w.own.devices) [
    | none ↦ Result.error enoent
    | some d ↦ Result.done (w.own.device (w.own.node d).dev).name
  ],
)

abbrev pub set_refs : ℕ → ℕ → World Own → World Own
set_refs dev refs w =
    let d = w.own.device dev in
    record w { own = record w.own { device = set_at w.own.device dev (record d { refs = refs }) } }

-- `devfs_open`, less the file that it makes, and `devfs_close`
unfoldable pub devfs_open : World Own → ℕ → World Own × Result Unit
devfs_open w node =
    let n = w.own.node node in
    let opened = set_refs n.dev (add32 (w.own.device n.dev).refs 1) w in
    elim n.type as (λ _. World Own × Result Unit) [
      | dev_char ↦ (opened, Result.done tt)
      | dev_block ↦ (opened, Result.done tt)
      | dev_unknown ↦ (w, Result.panics)
    ]

unfoldable pub devfs_close : World Own → ℕ → World Own × Result Unit
devfs_close w node =
    let n = w.own.node node in
    (set_refs n.dev (sub32 (w.own.device n.dev).refs 1) w, Result.done tt)

-- `devfs_register_char` and `devfs_register_block`, of a device in the file system `s_devfs`
abbrev pub register : DevfsNodeType → NodeType → ℕ → ℕ → World Own → World Own × ℕ
register type node_type s_devfs dev w =
    let n = w.own.fresh in
    let placed : World Own =
      set_node n (record { fs = s_devfs; id = 999; mode = 438; type = node_type }) w in
    (
      record placed {
        own = record w.own {
          devices = n ∷ w.own.devices;
          node = set_at w.own.node n (record { dev = dev; type = type });
          fresh = suc n;
        };
      },
      n,
    )

unfoldable pub devfs_register_char : ℕ → ℕ → World Own → World Own × ℕ
devfs_register_char s_devfs dev w =
    register DevfsNodeType.dev_char NodeType.nt_dev_char s_devfs dev w

unfoldable pub devfs_register_block : ℕ → ℕ → World Own → World Own × ℕ
devfs_register_block s_devfs dev w =
    register DevfsNodeType.dev_block NodeType.nt_dev_block s_devfs dev w
