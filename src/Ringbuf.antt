-- ===== src/Ringbuf.antt =====
-- kernel/lib/ringbuf.c: the ring buffer of the keyboard and the serial port, as one call at a time
-- runs. Its three semaphores are their counts; a call that would sleep is `blocks`.
pub mod Window
pub mod Fifo
use Prim.Native.Nat.{bit_and}
use minima.Base.{
  ℕ, zero, suc, ◌+◌, ◌-◌, ◌<◌, Option, none, some, List, [], ◌∷◌, length, get_elem?, set, add32,
  ltb, if◌then◌else◌, ◌==◌,
}

-- `struct ringbuf`
pub record Ringbuf : Type 0 where
  pub queue : ℕ
  pub n_free : ℕ
  pub n_used : ℕ
  pub buf : List ℕ
  pub cap : ℕ
  pub head : ℕ
  pub tail : ℕ

-- A call returns, would sleep, or copies outside the buffer.
pub data Attempt (A : Type 0) : Type 0 where
  done : A → Attempt A
  blocks : Attempt A
  outside : Attempt A

-- `rb_initialize` leaves `head` and `tail` as they are.
unfoldable pub rb_initialize : Ringbuf → List ℕ → ℕ → Ringbuf
rb_initialize rb storage capacity = record rb {
  queue = 1;
  n_free = capacity;
  n_used = 0;
  buf = storage;
  cap = capacity;
}

-- `memcpy` into the buffer at an index, and out of it; `none` where a byte lies outside.
unfoldable pub copy_in : List ℕ → ℕ → List ℕ → Option (List ℕ)
copy_in buf i [] = some buf
copy_in buf i (x ∷ xs) =
    let rest = copy_in (set buf i x) (suc i) xs in if ltb i (length buf) then rest else none

unfoldable pub copy_out : List ℕ → ℕ → ℕ → Option (List ℕ)
copy_out buf i zero = some []
copy_out buf i (suc n) = elim (get_elem? buf i) [
  | none ↦ none
  | some x ↦ elim (copy_out buf (suc i) n) [ none ↦ none | some xs ↦ some (x ∷ xs) ]
]

-- `_rb_write`; the size is that of the data.
unfoldable pub rb_write : Ringbuf → List ℕ → Attempt Ringbuf
unfolding copy_in
rb_write b data_bytes =
    if b.n_free == 0
    then blocks
    else if b.queue == 0
    then blocks
    else elim (copy_in b.buf (bit_and (add32 b.head 1) (b.cap - 1)) data_bytes) [
      | none ↦ outside
      | some buf' ↦ done (record b {
        n_free = b.n_free - 1;
        buf = buf';
        head = bit_and (add32 b.head (length data_bytes)) (b.cap - 1);
        n_used = b.n_used + 1;
      })
    ]

-- `_rb_read`
unfoldable pub rb_read : Ringbuf → ℕ → Attempt (List ℕ × Ringbuf)
unfolding copy_out
rb_read b size =
    if b.n_used == 0
    then blocks
    else if b.queue == 0
    then blocks
    else elim (copy_out b.buf (bit_and (add32 b.tail 1) (b.cap - 1)) size) [
      | none ↦ outside
      | some out ↦ done (
        out,
        record b {
          n_used = b.n_used - 1;
          tail = bit_and (add32 b.tail size) (b.cap - 1);
          n_free = b.n_free + 1;
        },
      )
    ]
