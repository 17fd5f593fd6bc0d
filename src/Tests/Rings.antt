-- ===== src/Tests/Rings.antt =====
-- kernel/lib/ringbuf.c at concrete inputs: a ring of four bytes that holds two.
use minima.Base.{refl, [], ◌∷◌, arith}
use minima.Ringbuf.{Ringbuf, rb_write, rb_read}
use minima.Ringbuf.Fifo.{IsRing, Pushed, Popped, rb_write-push, rb_read-pop}

abbrev ring : Ringbuf
ring = record {
  queue = 1;
  n_free = 2;
  n_used = 2;
  buf = 7 ∷ 8 ∷ 9 ∷ 6 ∷ [];
  cap = 4;
  head = 1;
  tail = 3;
}

ring-IsRing : IsRing 2 ring
ring-IsRing = record {
  power = refl;
  word = omega arith;
  storage = omega arith;
  free_lock = refl;
  units = refl;
  tail_in = omega arith;
  head_in = omega arith;
  head_at = refl;
}

abbrev zeroed : Ringbuf
zeroed = record { queue = 0; n_free = 0; n_used = 0; buf = []; cap = 0; head = 0; tail = 0 }

rb_write-push_example : Pushed 2 ring 5 (rb_write ring (5 ∷ []))
rb_write-push_example = rb_write-push 2 ring ring-IsRing 5

rb_read-pop_example : Popped 2 ring (rb_read ring 1)
rb_read-pop_example = rb_read-pop 2 ring ring-IsRing
