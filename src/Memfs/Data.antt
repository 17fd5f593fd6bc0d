-- ===== src/Memfs/Data.antt =====
-- kernel/fs/mem.c: reading, writing and seeking in the bytes of a file.
use minima.Base.{
  ℕ, ◌+◌, ◌-◌, min, Option, none, some, List, [], ◌++◌, ◌==◌, ltb, leb, if◌then◌else◌, length, take,
  drop, add32,
}
use minima.Vfs.{VfsStat, VfsNode}

-- `memfs_read` at an offset: the offset afterwards, and what is read.
unfoldable pub memfs_read : List ℕ → ℕ → ℕ → ℕ × List ℕ
memfs_read bytes offset n =
    let remain = length bytes - offset in
    let to_read = min n remain in
    if leb (length bytes) offset
    then (offset, [])
    else (offset + to_read, take to_read (drop offset bytes))

-- What `memfs_write` does: the bytes and the offset afterwards; -ENOMEM; or a copy past the end of
-- the buffer.
pub data Write : Type 0 where
  written : List ℕ → ℕ → Write
  enomem : Write
  overruns : Write

-- `memcpy(data + offset, buf, bytes)`
abbrev pub copy_to : List ℕ → ℕ → List ℕ → Write
copy_to bytes offset buf =
    if leb (offset + length buf) (length bytes)
    then Write.written (take offset bytes ++ (buf ++ drop (length buf) (drop offset bytes)))
        (add32 offset (length buf))
    else Write.overruns

-- `kmalloc` gives a buffer, or none; the returned count is that of the buffer written.
unfoldable pub memfs_write : (ℕ → Option (List ℕ)) → List ℕ → ℕ → List ℕ → Write
memfs_write kmalloc bytes offset buf =
    let end = add32 offset (length buf) in
    if ltb (length bytes) end
    then elim (kmalloc end) [
      | none ↦ Write.enomem
      | some newbuf ↦ copy_to (bytes ++ drop (length bytes) newbuf) offset buf
    ]
    else copy_to bytes offset buf

-- `SEEK_SET`, `SEEK_CUR` and `SEEK_END` are 0, 1 and 2; the result is the new offset.
unfoldable pub memfs_seek : List ℕ → ℕ → ℕ → ℕ → ℕ
memfs_seek bytes at offset mode =
    if mode == 0
    then offset
    else if mode == 1
    then add32 at offset
    else if mode == 2
    then add32 (length bytes) offset
    else at

unfoldable pub memfs_stat : VfsNode → List ℕ → ℕ → VfsStat
memfs_stat n bytes at = record {
  size = length bytes;
  block_size = 512;
  offset = at;
  id = n.id;
  mode = n.mode;
  links = 0;
  uid = 1000;
  gid = 1000;
  atime = 0;
  mtime = 0;
  ctime = 0;
}
