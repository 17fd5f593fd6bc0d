-- ===== src/Exec.antt =====
-- kernel/exec.c, kernel/include/lib/elf.h: the loading of a program. `vfs_read_at` of the file and `mmap`
-- are arguments.
pub mod Images
pub mod Null
use minima.Base.{
  ℕ, zero, suc, ◌+◌, ◌*◌, ◌^◌, Bool, true, false, not, Option, none, some, List, [], ◌∷◌, ◌==◌,
  if◌then◌else◌, get_or, drop, prepend,
}
use minima.Utils.{memcmp}

-- `vfs_read_at` returns an error, or a number and fills the buffer.
pub data Read : Type 0 where
  err : ℕ → Read
  got : ℕ → List ℕ → Read

abbrev pub u16_at : List ℕ → ℕ → ℕ
u16_at b i = get_or b i 0 + 2 ^ 8 * get_or b (1 + i) 0

abbrev pub u32_at : List ℕ → ℕ → ℕ
u32_at b i = u16_at b i + 2 ^ 16 * u16_at b (2 + i)

-- `struct elf_file32`, as far as it is used here
pub record ElfFile32 : Type 0 where
  pub entry : ℕ
  pub program_header_table : ℕ
  pub program_header_entry_size : ℕ
  pub n_program_headers : ℕ
  pub section_header_entry_size : ℕ

unfoldable pub elf_file32 : List ℕ → ElfFile32
elf_file32 b = record {
  entry = u32_at b 24;
  program_header_table = u32_at b 28;
  program_header_entry_size = u16_at b 42;
  n_program_headers = u16_at b 44;
  section_header_entry_size = u16_at b 46;
}

-- `struct prog_hdr32`
pub record ProgHdr32 : Type 0 where
  pub type : ℕ
  pub offset : ℕ
  pub virt_addr : ℕ
  pub phys_addr : ℕ
  pub seg_bytes : ℕ
  pub mem_bytes : ℕ
  pub flags : ℕ
  pub alignment : ℕ

unfoldable pub prog_hdr32 : List ℕ → ProgHdr32
prog_hdr32 b = record {
  type = u32_at b 0;
  offset = u32_at b 4;
  virt_addr = u32_at b 8;
  phys_addr = u32_at b 12;
  seg_bytes = u32_at b 16;
  mem_bytes = u32_at b 20;
  flags = u32_at b 24;
  alignment = u32_at b 28;
}

unfoldable pub phdrs : ℕ → List ℕ → List ProgHdr32
unfolding prog_hdr32
phdrs zero b = []
phdrs (suc n) b = prog_hdr32 b ∷ phdrs n (drop 32 b)

-- What `load_segment` passes to `mmap`; the protection is always the same.
pub record Mapping : Type 0 where
  pub addr : ℕ
  pub bytes : ℕ
  pub offset : ℕ

abbrev pub load_segment : ProgHdr32 → Mapping
load_segment ph = record { addr = ph.virt_addr; bytes = ph.mem_bytes; offset = ph.offset }

-- A return value of at least 0, or an error code without its sign.
pub data Ret : Type 0 where
  ok : ℕ → Ret
  error : ℕ → Ret

abbrev pub enoent : ℕ
enoent = 3

abbrev pub enomem : ℕ
enomem = 12

abbrev pub enoexec : ℕ
enoexec = 15

abbrev pub elf_hdr : List ℕ
elf_hdr = 127 ∷ 69 ∷ 76 ∷ 70 ∷ []

abbrev pub st_load : ℕ
st_load = 1

-- The loop of `load_32`: its return value, and what has been mapped. `mmap` is given what has been mapped
-- before, and says whether it succeeds.
unfoldable pub load_segments :
    (List Mapping → Mapping → Bool) → Ret → List Mapping → List ProgHdr32 → Ret × List Mapping
load_segments mmap ret maps [] = (ret, maps)
load_segments mmap ret maps (ph ∷ l) = elim (ph.type == st_load) [
  | false ↦ load_segments mmap ret maps l
  | true ↦ elim (mmap maps (load_segment ph)) [
    | false ↦ (error enomem, maps)
    | true ↦ load_segments mmap (ok 0) (prepend (load_segment ph) maps) l
  ]
]

-- What a load comes to: its return value, what it has mapped, and the entry, none where it is not set.
pub record Loaded : Type 0 where
  pub ret : Ret
  pub maps : List Mapping
  pub entry_out : Option ℕ

abbrev pub load_phdrs : (List Mapping → Mapping → Bool) → ElfFile32 → Read → Loaded
load_phdrs mmap elf (err c) = record { ret = error c; maps = []; entry_out = some elf.entry }
load_phdrs mmap elf (got n b) =
    let (ret, maps) = load_segments mmap (ok n) [] (phdrs elf.n_program_headers b) in
    record { ret = ret; maps = maps; entry_out = some elf.entry }

abbrev pub check_sizes : (ℕ → ℕ → Read) → (List Mapping → Mapping → Bool) → ElfFile32 → Loaded
check_sizes read mmap elf =
    if not (elf.program_header_entry_size == 32)
    then record { ret = ok 1; maps = []; entry_out = some elf.entry }
    else if not (elf.section_header_entry_size == 40)
    then record { ret = ok 1; maps = []; entry_out = some elf.entry }
    else load_phdrs mmap elf (read (elf.n_program_headers * 32) elf.program_header_table)

abbrev pub after_header : (ℕ → ℕ → Read) → (List Mapping → Mapping → Bool) → Read → Loaded
after_header read mmap (err c) = record { ret = error c; maps = []; entry_out = none }
after_header read mmap (got n b) = check_sizes read mmap (elf_file32 b)

unfoldable pub load_32 : (ℕ → ℕ → Read) → (List Mapping → Mapping → Bool) → Loaded
load_32 read mmap = after_header read mmap (read 52 0)

-- `elf_load`; none is a read outside a buffer.
abbrev pub after_memcmp :
    (ℕ → ℕ → Read) → (List Mapping → Mapping → Bool) → List ℕ → Option ℕ → Option Loaded
after_memcmp read mmap ident none = none
after_memcmp read mmap ident (some n) = some (
    if not (n == 0)
    then record { ret = ok 1; maps = []; entry_out = none }
    else if get_or ident 4 0 == 1
    then load_32 read mmap
    else record { ret = error enoexec; maps = []; entry_out = none })

abbrev pub after_ident : (ℕ → ℕ → Read) → (List Mapping → Mapping → Bool) → Read → Option Loaded
after_ident read mmap (err c) = some (record { ret = error c; maps = []; entry_out = none })
after_ident read mmap (got n ident) = after_memcmp read mmap ident (memcmp ident elf_hdr 4)

unfoldable pub elf_load : (ℕ → ℕ → Read) → (List Mapping → Mapping → Bool) → Option Loaded
unfolding load_32
elf_load read mmap = after_ident read mmap (read 16 0)

-- `exec` returns an error before the task runs, or lets it run at an entry, which is NULL at first, with
-- what has been mapped. Whether the file is found, and what task_prepare returns, are arguments.
pub data Exec : Type 0 where
  fails : ℕ → Exec
  runs : ℕ → List Mapping → Exec

abbrev pub null_or : Option ℕ → ℕ
null_or none = 0
null_or (some entry) = entry

abbrev pub start_task : Ret → List Mapping → Option ℕ → Exec
start_task (error c) maps entry = fails c
start_task (ok n) maps entry = runs (null_or entry) maps

abbrev pub after_load : Option Loaded → Option Exec
after_load none = none
after_load (some l) = some (start_task l.ret l.maps l.entry_out)

unfoldable pub exec : Bool → Ret → (ℕ → ℕ → Read) → (List Mapping → Mapping → Bool) → Option Exec
unfolding elf_load
exec false tid read mmap = some (fails enoent)
exec true (error c) read mmap = some (fails c)
exec true (ok tid) read mmap = after_load (elf_load read mmap)
