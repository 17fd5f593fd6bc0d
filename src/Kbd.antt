-- ===== src/Kbd.antt =====
-- kernel/drivers/kbd.c: the keyboard interrupt, from scan codes to the ring buffer that /dev/kbd reads.
pub mod Modifiers
pub mod Typing
use minima.Base.{
  ℕ, ◌%◌, ◌<◌, Bool, true, false, not, ◌&&◌, ◌||◌, Option, none, some, List, [], ◌∷◌, ltb, leb,
  ◌==◌, if◌then◌else◌, get_or, get_elem?, set,
}
use minima.Ringbuf.{Ringbuf, Attempt, rb_write}

-- `modifiers` (indexed by `enum mod_key`), `s_rb`, and whether the machine has been halted.
pub record Kbd : Type 0 where
  pub modifiers : List ℕ
  pub rb : Ringbuf
  pub halted : Bool

-- `codes`: the scan code, and its byte without and with shift.
abbrev pub codes_table : List (ℕ × ℕ × ℕ)
codes_table =
    (30, 97, 65)
    ∷ (48, 98, 66)
    ∷ (46, 99, 67)
    ∷ (32, 100, 68)
    ∷ (18, 101, 69)
    ∷ (33, 102, 70)
    ∷ (34, 103, 71)
    ∷ (35, 104, 72)
    ∷ (23, 105, 73)
    ∷ (36, 106, 74)
    ∷ (37, 107, 75)
    ∷ (38, 108, 76)
    ∷ (50, 109, 77)
    ∷ (49, 110, 78)
    ∷ (24, 111, 79)
    ∷ (25, 112, 80)
    ∷ (16, 113, 81)
    ∷ (19, 114, 82)
    ∷ (31, 115, 83)
    ∷ (20, 116, 84)
    ∷ (22, 117, 85)
    ∷ (47, 118, 86)
    ∷ (17, 119, 87)
    ∷ (45, 120, 88)
    ∷ (21, 121, 89)
    ∷ (44, 122, 90)
    ∷ (57, 32, 32)
    ∷ (2, 49, 33)
    ∷ (3, 50, 34)
    ∷ (4, 51, 35)
    ∷ (5, 52, 36)
    ∷ (6, 53, 37)
    ∷ (7, 54, 38)
    ∷ (8, 55, 47)
    ∷ (9, 56, 40)
    ∷ (10, 57, 41)
    ∷ (11, 48, 61)
    ∷ (14, 8, 8)
    ∷ (15, 9, 9)
    ∷ (28, 10, 10)
    ∷ (1, 27, 27)
    ∷ (43, 39, 39)
    ∷ (51, 44, 59)
    ∷ (52, 46, 58)
    ∷ (53, 45, 95)
    ∷ (40, 39, 39)
    ∷ (83, 127, 127)
    ∷ []

-- The entry of a scan code; the other entries are 0.
unfoldable pub code_bytes : ℕ → List (ℕ × ℕ × ℕ) → List ℕ
code_bytes key [] = 0 ∷ 0 ∷ []
code_bytes key ((code, plain, shifted) ∷ l) =
    if code == key then plain ∷ shifted ∷ [] else code_bytes key l

unfoldable pub codes : ℕ → List ℕ
unfolding code_bytes
codes key = code_bytes key codes_table

-- `enum mod_key`
abbrev pub mod_shift : ℕ
mod_shift = 1

abbrev pub mod_ctrl : ℕ
mod_ctrl = 2

abbrev pub mod_alt : ℕ
mod_alt = 3

abbrev pub mod_0x60 : ℕ
mod_0x60 = 4

unfoldable pub get_mod : ℕ → ℕ
get_mod scancode =
    let key = scancode % 128 in
    if key == 42 || key == 54
    then mod_shift
    else if key == 29
    then mod_ctrl
    else if key == 56
    then mod_alt
    else if key == 96
    then mod_0x60
    else if key == 91
    then 5
    else if key == 92
    then 6
    else 0

-- The body of `check_special`, for what `get_mod` finds and the state that the key has now: whether it
-- is a modifier, and the modifiers after it. None is the failed assertion.
unfoldable pub change : List ℕ → ℕ → ℕ → Option (Bool × List ℕ)
change modifiers key down =
    let changed = set modifiers key down in
    if key == 0
    then some (false, modifiers)
    else if key == 96
    then if get_or modifiers mod_0x60 0 == 0 then some (true, set modifiers mod_0x60 1) else none
    else some (true, if get_or changed mod_0x60 0 == 0 then changed else set changed mod_0x60 0)

-- The top bit says that the key is released.
abbrev pub is_down : ℕ → ℕ
is_down scancode = if leb 128 scancode then 0 else 1

unfoldable pub check_special : List ℕ → ℕ → Option (Bool × List ℕ)
unfolding get_mod change
check_special modifiers scancode = change modifiers (get_mod scancode) (is_down scancode)

-- The interrupt is handled, starts the machine anew, sleeps in the ring buffer, or fails.
pub data Irq : Type 0 where
  handled : Kbd → Irq
  reboots : Irq
  sleeps : Irq
  fails : Irq

abbrev pub write_result : Kbd → Attempt Ringbuf → Irq
write_result s (Attempt.done rb) = handled (record s { rb = rb })
write_result s Attempt.blocks = sleeps
write_result s Attempt.outside = fails

-- `received_scancode`, without what it prints, for the byte that the table has.
unfoldable pub type_byte : Kbd → ℕ → ℕ → Irq
type_byte s scancode byte =
    if not (byte == 0) && ltb scancode 128
    then if s.rb.n_free == 0 then handled s else write_result s (rb_write s.rb (byte ∷ []))
    else handled s

unfoldable pub received_scancode : Kbd → ℕ → Irq
received_scancode s scancode =
    elim (get_elem? (codes (scancode % 128)) (get_or s.modifiers mod_shift 0)) [
      | none ↦ fails
      | some byte ↦ type_byte s scancode byte
    ]

-- `kbd_irq`, on the byte that the keyboard has sent, after `check_special`.
unfoldable pub after_special : Kbd → ℕ → Option (Bool × List ℕ) → Irq
after_special s scancode none = fails
after_special s scancode (some (true, modifiers)) = handled (record s { modifiers = modifiers })
after_special s scancode (some (false, modifiers)) =
    if scancode % 128 == 83
      && (not (get_or s.modifiers mod_ctrl 0 == 0) && not (get_or s.modifiers mod_alt 0 == 0))
    then reboots
    else if s.halted
    then handled s
    else received_scancode s scancode

unfoldable pub kbd_irq : Kbd → ℕ → Irq
kbd_irq s scancode = after_special s scancode (check_special s.modifiers scancode)
