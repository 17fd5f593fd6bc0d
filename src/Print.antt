-- ===== src/Print.antt =====
-- kernel/kprintf.c: how numbers are printed and read. Text is the list of its bytes; what is printed
-- is the list of the bytes that reach the terminal.
pub mod Digits
pub mod Scan
pub mod Format
pub mod Ends
pub mod Pieces
use minima.Base.{
  ℕ, zero, suc, ◌+◌, ◌-◌, ◌*◌, ◌/◌, ◌%◌, ◌^◌, Bool, true, false, ◌&&◌, Option, none, some, List, [],
  ◌∷◌, ◌++◌, map, ltb, leb, if◌then◌else◌, add32, sub32, mul32, get_or, set, length,
}

-- The loop of `places`; `none` is that the fuel runs out.
unfoldable pub places_loop : ℕ → ℕ → ℕ → Option ℕ
places_loop zero count n = none
places_loop (suc fuel) count n =
    let rest = places_loop fuel (suc count) (n / 10) in if leb 10 n then rest else some count

unfoldable pub places : ℕ → ℕ → Option ℕ
unfolding places_loop
places fuel n = places_loop fuel 1 n

-- The loop of `pru32`, which fills the buffer from its end, with the number of bytes left to fill
-- and those that are filled.
unfoldable pub fill : ℕ → ℕ → List ℕ → List ℕ
fill zero num buf = buf
fill (suc n) num buf = fill n (num / 10) ((num % 10 + 48) ∷ buf)

-- a `uint32_t` has ten digits at most
abbrev pub max_places : ℕ
max_places = 10

unfoldable pub pru32 : ℕ → Option (List ℕ)
pru32 num = elim (places max_places num) [ none ↦ none | some len ↦ some (fill len num []) ]

-- `pri32` of the 32-bit word of an `int`; `-` is 45.
unfoldable pub pri32 : ℕ → Option (List ℕ)
pri32 num = elim (leb (2 ^ 31) num) [
  | true ↦ elim (pru32 (sub32 0 num)) [ none ↦ none | some l ↦ some (45 ∷ l) ]
  | false ↦ pru32 num
]

-- `kprinthex_internal`
abbrev pub hexchar : ℕ → ℕ
hexchar d = if ltb d 10 then d + 48 else d + 55

unfoldable pub kprinthex_internal : ℕ → List ℕ
kprinthex_internal byte = hexchar (byte / 16 % 16) ∷ hexchar (byte % 16) ∷ []

-- `kprinthex4`, 3 and 2: the shifts, and the conversions to a byte; `0x` is 48, 120.
abbrev pub byte_at : ℕ → ℕ → ℕ
byte_at i val = val / 256 ^ i % 256

unfoldable pub kprinthex4 : ℕ → List ℕ
kprinthex4 val =
    48
    ∷ 120
    ∷ (kprinthex_internal (byte_at 3 val)
        ++ (kprinthex_internal (byte_at 2 val)
            ++ (kprinthex_internal (byte_at 1 val) ++ kprinthex_internal (byte_at 0 val))))

unfoldable pub kprinthex2 : ℕ → List ℕ
kprinthex2 val =
    48 ∷ 120 ∷ (kprinthex_internal (byte_at 1 val) ++ kprinthex_internal (byte_at 0 val))

unfoldable pub is_num : ℕ → Bool
is_num c = leb 48 c && leb c 57

-- The first loop of `try_get_num`: the index at its end, and the array of places. `none` is a write
-- past the end of the array.
unfoldable pub read_places : List ℕ → ℕ → List ℕ → Option (ℕ × List ℕ)
read_places [] idx p = some (idx, p)
read_places (c ∷ str) idx p =
    let rest = read_places str (suc idx) (set (map (λ x. mul32 x 10) p) idx (c - 48)) in
    if is_num c then if ltb idx (length p) then rest else none else some (idx, p)

-- The second loop, on the places up to `idx`; `none` is the failed assertion.
unfoldable pub sum_places : ℕ → List ℕ → ℕ → Option ℕ
sum_places zero p sum = some sum
sum_places (suc n) [] sum = some sum
sum_places (suc n) (x ∷ p) sum =
    let rest = sum_places n p (add32 sum x) in if leb sum (add32 sum x) then rest else none

-- `try_get_num`: its result, and `*num_out` if it is set. The array of 11 places starts with
-- whatever the stack holds.
unfoldable pub try_get_num : List ℕ → List ℕ → Option (ℕ × Option ℕ)
try_get_num garbage str = elim (read_places str 0 garbage) [
  | none ↦ none
  | some (zero, p) ↦ some (0, none)
  | some (suc n, p) ↦ elim (sum_places (suc n) p 0) [
    | none ↦ none
    | some sum ↦ some (suc n, some sum)
  ]
]
