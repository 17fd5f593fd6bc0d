-- ===== src/Ringbuf/Fifo.antt =====
-- kernel/lib/ringbuf.c moves one byte at a time (kernel/drivers/kbd.c and kernel/serial_debug.c
-- do): a ring whose capacity is a power of two is a bounded first-in first-out queue.
use Prim.Native.Nat.{bit_and}
use minima.Base.{
  ℕ, suc, ◌+◌, ◌-◌, ◌%◌, ◌^◌, ◌≤◌, ◌<◌, ◌≡◌, ◌≢◌, refl, ap, sym, ◌∙◌, List, [], ◌∷◌, ◌++◌, arith,
  length, length-set, get_or, get_elem?-eq-get_or, set, get_or-set_self, add32,
}
use mathlib.Core.Path.{ap₂, subst}
use native.Mathlib.Decide.{ℕ_discrete}
use native.Mathlib.Nat.{mod-lt, mod-add-mod, mod-eq_of_lt, one-le-pow}
use minima.Base.Mask.{bit_and-mask}
use minima.Ringbuf.{Ringbuf, Attempt, done, blocks, rb_initialize, rb_write, rb_read}
use minima.Ringbuf.Window.{held, held_wrap, held-set, held_snoc}

pub record IsRing (k : ℕ) (b : Ringbuf) : Type 0 where
  pub power : b.cap ≡ 2 ^ k
  pub word : b.cap < 2 ^ 32
  pub storage : b.cap ≤ length b.buf
  pub free_lock : b.queue ≡ 1
  pub units : b.n_used + b.n_free ≡ b.cap
  pub tail_in : b.tail < b.cap
  pub head_in : b.head < b.cap
  pub head_at : b.head ≡ (b.tail + b.n_used) % b.cap

-- the bytes in the buffer, the oldest first
abbrev pub contents : Ringbuf → List ℕ
contents b = held b.cap b.buf b.tail b.n_used

masked : (k : ℕ) (b : Ringbuf) (x : ℕ) → IsRing k b → bit_and x (b.cap - 1) ≡ x % b.cap
masked k b x is = rw is.power (bit_and-mask k x)

-- With a capacity that is a power of two below 2 ^ 32 and at least as much storage, rb_initialize
-- of a ring whose head and tail are 0 gives a well-formed ring that is empty.
pub rb_initialize-IsRing :
    (k : ℕ) (rb : Ringbuf) (storage : List ℕ) (cap : ℕ)
    → rb.head ≡ 0
    → rb.tail ≡ 0
    → cap ≡ 2 ^ k
    → cap < 2 ^ 32
    → cap ≤ length storage
    → IsRing k (rb_initialize rb storage cap) × (contents (rb_initialize rb storage cap) ≡ [])
unfolding rb_initialize
rb_initialize-IsRing k rb storage cap h t e small room =
    let pos : 0 < cap = rw e (one-le-pow k 2 (omega arith)) in
    (
      record {
        power = e;
        word = small;
        storage = room;
        free_lock = refl;
        units = omega arith;
        tail_in = omega arith;
        head_in = omega arith;
        head_at = rw (h, t) (sym (mod-eq_of_lt (omega arith)));
      },
      refl,
    )

-- What a write of one byte comes to: the ring is full and the call sleeps, or the byte goes in.
pub data Pushed (k : ℕ) (b : Ringbuf) (x : ℕ) : Attempt Ringbuf → Type 0 where
  full : b.n_used ≡ b.cap → Pushed k b x blocks
  put :
      {b' : Ringbuf}
      → b.n_used < b.cap
      → IsRing k b'
      → contents b' ≡ contents b ++ (x ∷ [])
      → Pushed k b x (done b')

-- What a read of one byte comes to: the ring is empty and the call sleeps, or a byte comes out.
pub data Popped (k : ℕ) (b : Ringbuf) : Attempt (List ℕ × Ringbuf) → Type 0 where
  empty : contents b ≡ [] → Popped k b blocks
  got :
      {b' : Ringbuf} (x : ℕ)
      → contents b ≡ x ∷ contents b'
      → IsRing k b'
      → Popped k b (done (x ∷ [], b'))

module _ (k : ℕ) (b : Ringbuf) (is : IsRing k b) where
  pos : 0 < b.cap
  pos = omega (arith, is.tail_in)

  step_index : (i : ℕ) → i < b.cap → bit_and (add32 i 1) (b.cap - 1) ≡ (i + 1) % b.cap
  step_index i h = masked k b (add32 i 1) is ∙ ap (λ n. n % b.cap) (omega (arith, is.word))

  index_in : (i : ℕ) → i % b.cap < length b.buf
  index_in i = omega (arith, mod-lt i pos, is.storage)

  -- the ring after a write of one byte
  written : ℕ → Ringbuf
  written x = record b {
    n_free = b.n_free - 1;
    buf = set b.buf ((b.head + 1) % b.cap) x;
    head = (b.head + 1) % b.cap;
    n_used = b.n_used + 1;
  }

  write-eq : (x : ℕ) → b.n_free ≢ 0 → rb_write b (x ∷ []) ≡ done (written x)
  unfolding rb_write written
  write-eq x ne = ground (arith, step_index b.head is.head_in, index_in (b.head + 1), is.free_lock)

  written-IsRing : (x : ℕ) → b.n_free ≢ 0 → IsRing k (written x)
  unfolding written
  written-IsRing x ne = record {
    power = is.power;
    word = is.word;
    storage = omega (arith, is.storage, length-set b.buf ((b.head + 1) % b.cap) x);
    free_lock = is.free_lock;
    units = omega (arith, is.units);
    tail_in = is.tail_in;
    head_in = mod-lt (b.head + 1) pos;
    head_at =
        rw is.head_at (mod-add-mod (b.tail + b.n_used) b.cap 1 ∙ ap (λ n. n % b.cap) (omega arith));
  }

  contents-written : (x : ℕ) → b.n_free ≢ 0 → contents (written x) ≡ contents b ++ (x ∷ [])
  unfolding written
  contents-written x ne =
      let c = b.cap in
      let n = b.n_used in
      let at : (b.head + 1) % c ≡ (b.tail + suc n) % c =
        rw is.head_at (mod-add-mod (b.tail + n) c 1 ∙ ap (λ j. j % c) (omega arith)) in
      let buf' = set b.buf ((b.tail + suc n) % c) x in
      let more : n + 1 ≡ suc n = omega arith in
      ap₂ (λ i m. held c (set b.buf i x) b.tail m) at more
      ∙ held_snoc c buf' b.tail n
      ∙ ap₂ (λ l y. l ++ (y ∷ []))
          (held-set c b.buf b.tail n (suc n) x (omega arith) (omega (arith, is.units)))
          (get_or-set_self b.buf ((b.tail + suc n) % c) x 0 (index_in (b.tail + suc n)))

  write-blocks : (x : ℕ) → b.n_free ≡ 0 → rb_write b (x ∷ []) ≡ blocks
  unfolding rb_write
  write-blocks x e = rw e

  -- On a well-formed ring, a write of one byte would sleep and the ring is full, or puts the byte
  -- behind the bytes that the ring holds and leaves it well formed.
  pub rb_write-push : (x : ℕ) → Pushed k b x (rb_write b (x ∷ []))
  rb_write-push x = elim (ℕ_discrete b.n_free 0) [
    | yes e ↦ subst (Pushed k b x) (sym (write-blocks x e)) (full (omega (arith, is.units)))
    | no ne ↦
        subst (Pushed k b x) (sym (write-eq x ne))
          (put (omega (arith, is.units)) (written-IsRing x ne) (contents-written x ne))
  ]

  -- the ring after a read of one byte
  drained : Ringbuf
  drained = record b { n_used = b.n_used - 1; tail = (b.tail + 1) % b.cap; n_free = b.n_free + 1 }

  oldest : ℕ
  oldest = get_or b.buf ((b.tail + 1) % b.cap) 0

  read-eq : b.n_used ≢ 0 → rb_read b 1 ≡ done (oldest ∷ [], drained)
  unfolding rb_read drained oldest
  read-eq ne = ground (
    arith,
    step_index b.tail is.tail_in,
    get_elem?-eq-get_or b.buf ((b.tail + 1) % b.cap) 0 (index_in (b.tail + 1)),
    is.free_lock,
  )

  drained-IsRing : b.n_used ≢ 0 → IsRing k drained
  unfolding drained
  drained-IsRing ne = record {
    power = is.power;
    word = is.word;
    storage = is.storage;
    free_lock = is.free_lock;
    units = omega (arith, is.units);
    tail_in = mod-lt (b.tail + 1) pos;
    head_in = is.head_in;
    head_at =
        is.head_at
        ∙ ap (λ n. n % b.cap) (omega arith)
        ∙ sym (mod-add-mod (b.tail + 1) b.cap (b.n_used - 1));
  }

  contents-drained : b.n_used ≢ 0 → contents b ≡ oldest ∷ contents drained
  unfolding drained oldest
  contents-drained ne =
      let e : b.n_used ≡ suc (b.n_used - 1) = omega arith in
      ap (held b.cap b.buf b.tail) e
      ∙ ap (λ l. get_or b.buf ((b.tail + 1) % b.cap) 0 ∷ l)
          (sym (held_wrap b.cap b.buf (b.tail + 1) (b.n_used - 1)))

  read-blocks : b.n_used ≡ 0 → rb_read b 1 ≡ blocks
  unfolding rb_read
  read-blocks e = rw e

  none_held : b.n_used ≡ 0 → contents b ≡ []
  none_held e = rw e

  -- On a well-formed ring, a read of one byte would sleep and the ring is empty, or takes out the
  -- oldest byte, leaves the others in order and the ring well formed.
  pub rb_read-pop : Popped k b (rb_read b 1)
  rb_read-pop = elim (ℕ_discrete b.n_used 0) [
    | yes e ↦ subst (Popped k b) (sym (read-blocks e)) (empty (none_held e))
    | no ne ↦
        subst (Popped k b) (sym (read-eq ne)) (got oldest (contents-drained ne) (drained-IsRing ne))
  ]
