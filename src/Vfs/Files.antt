-- ===== src/Vfs/Files.antt =====
-- kernel/fs/vfs.c: files, whose operations stand in a table of their own.
use minima.Base.{ℕ, ◌-◌, ◌^◌, Option, none, some, List}
use minima.Vfs.{World, VfsOps, VfsFile, VfsStat, Result, and_then, enotsup}
use minima.Vfs.Paths.{vfs_traverse}

module _ {S : Type 0} (ops : ℕ → VfsOps S) where
  unfoldable pub vfs_open : World S → ℕ → World S × Result (VfsFile S)
  vfs_open w node = elim (ops (w.nodes node).fs).open_node [
    | none ↦ (w, Result.error enotsup)
    | some open_node ↦ open_node w node
  ]

  unfoldable pub vfs_close : World S → VfsFile S → World S × Result Unit
  vfs_close w file = elim (ops (w.nodes file.node).fs).close [
    | none ↦ (w, Result.error enotsup)
    | some close ↦ close w file
  ]

  -- An error, whose code the caller does not see, is none.
  abbrev pub opened : World S × Result (VfsFile S) → World S × Option (VfsFile S)
  opened (w, Result.done file) = (w, some file)
  opened (w, _) = (w, none)

  unfoldable pub vfs_open_file : ℕ → World S → List ℕ → World S × Option (VfsFile S)
  vfs_open_file fuel w path = opened (and_then (vfs_traverse ops fuel w 0 path) vfs_open)

module _ {S : Type 0} where
  unfoldable pub vfs_read : World S → VfsFile S → ℕ → World S × VfsFile S × Result (List ℕ)
  vfs_read w file bytes = elim file.ops.read [
    | none ↦ (w, file, Result.error enotsup)
    | some read ↦
        let (w', offset, ret) = read w file.node file.offset bytes in
        (w', record file { offset = offset }, ret)
  ]

  unfoldable pub vfs_read_at : World S → VfsFile S → ℕ → ℕ → World S × Result (List ℕ)
  vfs_read_at w file bytes at = elim file.ops.read_at [
    | none ↦ (w, Result.error enotsup)
    | some read_at ↦ read_at w file.node bytes at
  ]

  unfoldable pub vfs_write : World S → VfsFile S → List ℕ → World S × VfsFile S × Result ℕ
  vfs_write w file buf = elim file.ops.write [
    | none ↦ (w, file, Result.error enotsup)
    | some write ↦
        let (w', offset, ret) = write w file.node file.offset buf in
        (w', record file { offset = offset }, ret)
  ]

  unfoldable pub vfs_write_at : World S → VfsFile S → List ℕ → ℕ → World S × Result ℕ
  vfs_write_at w file buf at = elim file.ops.write_at [
    | none ↦ (w, Result.error enotsup)
    | some write_at ↦ write_at w file.node buf at
  ]

  -- The result is an unsigned offset, so the error code is a large one.
  unfoldable pub vfs_seek : World S → VfsFile S → ℕ → ℕ → World S × VfsFile S × ℕ
  vfs_seek w file offset mode = elim file.ops.seek [
    | none ↦ (w, file, 2 ^ 32 - enotsup)
    | some seek ↦
        let (w', at, ret) = seek w file.node file.offset offset mode in
        (w', record file { offset = at }, ret)
  ]

  unfoldable pub vfs_stat : World S → VfsFile S → World S × Result VfsStat
  vfs_stat w file = elim file.ops.stat [
    | none ↦ (w, Result.error enotsup)
    | some stat ↦ stat w file.node file.offset
  ]
