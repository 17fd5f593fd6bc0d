-- ===== src/Exec/Images.antt =====
-- kernel/exec.c: the segments of a well-formed ELF file are mapped in their order.
use minima.Base.{span, ℕ, ◌/◌, ◌%◌, ◌^◌, ◌<◌, List, [], ◌∷◌, ◌++◌, ◌==◌, if◌then◌else◌}
use minima.Exec.{ProgHdr32, Mapping, Ret, ok}

-- The bytes of a number, the lowest first.
abbrev pub le16 : ℕ → List ℕ
le16 n = n % 256 ∷ n / 256 % 256 ∷ []

abbrev pub le32 : ℕ → List ℕ
le32 n = n % 256 ∷ n / 256 % 256 ∷ n / 65536 % 256 ∷ n / 16777216 % 256 ∷ []

-- The header of an ELF file of 32 bits, whose other bytes are given by their place.
abbrev pub header : (ℕ → ℕ) → ℕ → ℕ → ℕ → List ℕ
header other entry table n =
    127
    ∷ 69
    ∷ 76
    ∷ 70
    ∷ 1
    ∷ (span other 5 19
        ++ le32 entry
        ++ le32 table
        ++ span other 32 10
        ++ le16 32
        ++ le16 n
        ++ le16 40
        ++ span other 48 4)

abbrev pub program_header : ProgHdr32 → List ℕ
program_header h =
    le32 h.type
    ++ le32 h.offset
    ++ le32 h.virt_addr
    ++ le32 h.phys_addr
    ++ le32 h.seg_bytes
    ++ le32 h.mem_bytes
    ++ le32 h.flags
    ++ le32 h.alignment

abbrev pub program_headers : List ProgHdr32 → List ℕ
program_headers [] = []
program_headers (h ∷ l) = program_header h ++ program_headers l

-- The fields have 32 bits.
pub record IsHeader (h : ProgHdr32) : Type 0 where
  pub type : h.type < 2 ^ 32
  pub offset : h.offset < 2 ^ 32
  pub virt_addr : h.virt_addr < 2 ^ 32
  pub phys_addr : h.phys_addr < 2 ^ 32
  pub seg_bytes : h.seg_bytes < 2 ^ 32
  pub mem_bytes : h.mem_bytes < 2 ^ 32
  pub flags : h.flags < 2 ^ 32
  pub alignment : h.alignment < 2 ^ 32

-- The mappings of the segments that are to be loaded.
abbrev pub loads : List ProgHdr32 → List Mapping
loads [] = []
loads (h ∷ l) =
    if h.type == 1
    then record { addr = h.virt_addr; bytes = h.mem_bytes; offset = h.offset } ∷ loads l
    else loads l

abbrev pub ret_of : Ret → List Mapping → Ret
ret_of ret [] = ret
ret_of ret (m ∷ l) = ok 0
