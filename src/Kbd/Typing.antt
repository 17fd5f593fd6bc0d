-- ===== src/Kbd/Typing.antt =====
-- kernel/drivers/kbd.c: what the keys that are pressed and released come to.
use minima.Base.{
  ℕ, ◌%◌, ◌≤◌, ◌<◌, ◌≡◌, ◌⊎◌, Bool, true, false, not, ◌&&◌, List, [], ◌∷◌, ◌++◌, ◌==◌, get_or,
}
use minima.Ringbuf.{Ringbuf}
use minima.Ringbuf.Fifo.{IsRing, contents}
use minima.Kbd.{Kbd, Irq, sleeps, handled, reboots, codes}
use minima.Kbd.Modifiers.{IsMods, is_modifier, after_key, pressed}

-- The ring buffer when no task holds its lock.
abbrev pub unlocked : Ringbuf → Ringbuf
unlocked rb = record rb { queue = 1 }

pub record IsKbd (k : ℕ) (s : Kbd) : Type 0 where
  pub ring : IsRing k (unlocked s.rb)
  pub lock : s.rb.queue ≤ 1
  pub mods : IsMods s.modifiers

-- Delete while control and alt are held.
abbrev pub is_chord : List ℕ → ℕ → Bool
is_chord modifiers key =
    (key == 83) && (not (get_or modifiers 2 0 == 0) && not (get_or modifiers 3 0 == 0))

-- The byte of a key, with or without shift; 0 where the table has none.
abbrev pub byte_of : List ℕ → ℕ → ℕ
byte_of modifiers scancode = get_or (codes (scancode % 128)) (get_or modifiers 1 0) 0

-- What the interrupt for a byte of the keyboard comes to.
pub data Typed (k : ℕ) (s : Kbd) (scancode : ℕ) : Irq → Type 0 where
  modifier_key :
      {s' : Kbd}
      → is_modifier (scancode % 128) ≡ true
      → IsKbd k s'
      → s'.modifiers ≡ after_key s.modifiers (scancode % 128) (pressed scancode)
      → s'.rb ≡ s.rb
      → Typed k s scancode (handled s')
  restart :
      is_modifier (scancode % 128) ≡ false
      → is_chord s.modifiers (scancode % 128) ≡ true
      → Typed k s scancode reboots
  ignored :
      is_modifier (scancode % 128) ≡ false
      → is_chord s.modifiers (scancode % 128) ≡ false
      → (s.halted ≡ true)
        ⊎ ((128 ≤ scancode) ⊎ ((byte_of s.modifiers scancode ≡ 0) ⊎ (s.rb.n_used ≡ s.rb.cap)))
      → Typed k s scancode (handled s)
  waits :
      is_modifier (scancode % 128) ≡ false
      → is_chord s.modifiers (scancode % 128) ≡ false
      → scancode < 128
      → s.rb.queue ≡ 0
      → Typed k s scancode sleeps
  types :
      {s' : Kbd}
      → is_modifier (scancode % 128) ≡ false
      → is_chord s.modifiers (scancode % 128) ≡ false
      → scancode < 128
      → IsKbd k s'
      → s'.modifiers ≡ s.modifiers
      → contents s'.rb ≡ contents s.rb ++ (byte_of s.modifiers scancode ∷ [])
      → Typed k s scancode (handled s')
