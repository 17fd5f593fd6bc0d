-- ===== src/Floppy/Media.antt =====
-- kernel/drivers/floppy.c: the detection of the format of a disk, and the test of the status that the
-- controller reports. The commands to the controller are arguments.
use minima.Base.{
  ◌/◌, ◌%◌, ◌^◌, not, ◌&&◌, ◌||◌, ◌==◌, if◌then◌else◌, ◌∷◌, [], ℕ, zero, suc, Bool, true, false,
  Option, none, some, List, get_elem?,
}

-- `f` and `detect_idx` of a drive; a format is its place in the table.
pub record Detect : Type 0 where
  pub f : Option ℕ
  pub detect_idx : ℕ

-- `next_media_type` for an order of formats: whether it returns 0. None is a read outside the order.
abbrev pub next_format : ℕ → Option ℕ → Option (Bool × Detect)
next_format idx none = none
next_format idx (some zero) = some (false, record { f = none; detect_idx = 0 })
next_format idx (some (suc k)) = some (true, record { f = some (suc k); detect_idx = idx })

abbrev pub first_format : ℕ → Option ℕ → Option (Bool × Detect)
first_format idx none = none
first_format idx (some k) = some (true, record { f = some k; detect_idx = idx })

unfoldable pub next_media_type : List ℕ → Detect → Option (Bool × Detect)
next_media_type order d = elim d.f [
  | none ↦ first_format d.detect_idx (get_elem? order d.detect_idx)
  | some k ↦ next_format (suc d.detect_idx) (get_elem? order (suc d.detect_idx))
]

-- `detect_media` returns the error of `cmd_recalibrate`; its loop ends, reads outside the order, or has
-- no rounds left. `cmd_read_id` fails or not for each format.
pub data Detection : Type 0 where
  refused : ℕ → Detection
  ended : Detect → Detection
  outside : Detection
  unfinished : Detection

abbrev pub try_format : (ℕ → Bool) → (Detect → Detection) → Option (Bool × Detect) → Detection
try_format read_id_fails loop none = outside
try_format read_id_fails loop (some (false, d)) = ended d
try_format read_id_fails loop (some (true, d)) = elim d.f [
  | none ↦ ended d
  | some k ↦ elim (read_id_fails k) [ true ↦ loop d | false ↦ ended d ]
]

unfoldable pub detect_loop : ℕ → List ℕ → (ℕ → Bool) → Detect → Detection
unfolding next_media_type
detect_loop zero order read_id_fails d = unfinished
detect_loop (suc fuel) order read_id_fails d =
    try_format read_id_fails (detect_loop fuel order read_id_fails) (next_media_type order d)

-- `detect_media`, given what `cmd_recalibrate` returns; after the loop it returns 1 if there is no
-- format.
unfoldable pub detect_media : ℕ → List ℕ → ℕ → (ℕ → Bool) → Detection
unfolding detect_loop
detect_media fuel order ret read_id_fails =
    if not (ret == 0)
    then refused ret
    else detect_loop fuel order read_id_fails (record { f = none; detect_idx = 0 })

abbrev pub bit : ℕ → ℕ → Bool
bit status mask = status / mask % 2 == 1

-- For every bit of a status that is set, `error == 1` is asserted.
unfoldable pub asserts : ℕ → ℕ → List ℕ → Bool
asserts error status [] = true
asserts error status (mask ∷ l) = (not (bit status mask) || error == 1) && asserts error status l

-- The error by ST0: an interrupt code, or another drive.
abbrev pub st0_error : ℕ → ℕ → ℕ
st0_error num st0 = if st0 / 2 ^ 6 == 0 && st0 % 4 == num then 0 else 1

abbrev pub st1_error : ℕ → ℕ → ℕ
st1_error error st1 = if bit st1 2 then 2 else error

abbrev pub st1_holds : ℕ → ℕ → Bool
st1_holds error st1 =
    asserts error st1 (128 ∷ 32 ∷ 16 ∷ 4 ∷ 2 ∷ []) && asserts (st1_error error st1) st1 (1 ∷ [])

abbrev pub st2_holds : ℕ → ℕ → Bool
st2_holds error st2 =
    asserts error st2 (64 ∷ 32 ∷ 16 ∷ []) && (not (bit st2 4) && asserts error st2 (2 ∷ 1 ∷ []))

-- `check_error` for the drive and the sector size of its format; none is a failed assertion.
unfoldable pub check_error : ℕ → ℕ → ℕ → ℕ → ℕ → ℕ → Option ℕ
unfolding asserts
check_error num sector_size st0 st1 st2 ret_bps =
    let error = st0_error num st0 in
    let error' = st1_error error st1 in
    if bit st0 8
    then none
    else if st1_holds error st1 && (st2_holds error' st2 && (ret_bps == sector_size || error' == 1))
    then some error'
    else none
