-- ===== src/Purge/Sweeps.antt =====
-- kernel/mm/purge.c, `purgeable_purge`: what is freed is what was there, and enough of it or all.
use mathlib.Core.Path.{subst}
use mathlib.Core.List.{append_assoc}
use minima.Base.{
  ℕ, ◌+◌, ◌^◌, ◌≤◌, ◌<◌, ◌≡◌, ◌≢◌, ◌⊎◌, inl, inr, refl, sym, ap, ◌∙◌, true, false, List, [], ◌∷◌,
  ◌++◌, arith, ◌==◌, if◌then◌else◌, All, Bool-cases, ==→eq, ne→not-==, add32,
}
use minima.Purge.{
  Purgeable, Purge, Call, done, Purged, context, mem_purge, Sweep, enough, also, sweep_on,
  purge_loop, purgeable_purge,
}

-- The bytes, the buffers and the contexts of the entries that have a buffer.
abbrev pub amount : Purgeable → ℕ
amount p = if p.buf == 0 then 0 else p.bytes

abbrev pub resident : List Purgeable → ℕ
resident [] = 0
resident (p ∷ l) = amount p + resident l

abbrev pub own : Purgeable → List ℕ
own p = if p.buf == 0 then [] else p.buf ∷ []

abbrev pub buffers : List Purgeable → List ℕ
buffers [] = []
buffers (p ∷ l) = own p ++ buffers l

abbrev pub own_context : Purgeable → List ℕ
own_context p = if p.buf == 0 then [] else context p.on_purge

abbrev pub contexts : List Purgeable → List ℕ
contexts [] = []
contexts (p ∷ l) = own_context p ++ contexts l

-- What a sweep comes to.
pub data Swept (bytes total : ℕ) (l : List Purgeable) : Call Sweep → Type 0 where
  swept :
      {w : Sweep}
      → w.total_purged + resident w.entries ≡ total + resident l
      → w.freed ++ buffers w.entries ≡ buffers l
      → w.called ++ contexts w.entries ≡ contexts l
      → ((0 < bytes) × (bytes ≤ w.total_purged)) ⊎ All (λ p. p.buf ≡ 0) w.entries
      → Swept bytes total l (done w)

pub record IsPurged (p : Purgeable) (r : Purged) : Type 0 where
  pub taken : r.bytes ≡ amount p
  pub empty : r.entry.buf ≡ 0
  pub freed : r.freed ≡ own p
  pub called : r.called ≡ own_context p

pub mem_purge-IsPurged :
    (p : Purgeable) → p.lock ≢ 0 → (r : Purged) × (mem_purge p ≡ done r) × IsPurged p r
unfolding mem_purge
mem_purge-IsPurged p unlocked = elim (Bool-cases (p.buf == 0)) [
  | inl e ↦ (
    record { bytes = 0; entry = p; called = []; freed = [] },
    rw (ne→not-== p.lock 0 unlocked, e) refl,
    record { taken = rw e refl; empty = ==→eq p.buf 0 e; freed = rw e refl; called = rw e refl },
  )
  | inr e ↦ (
    record {
      bytes = p.bytes;
      entry = record p { buf = 0 };
      called = context p.on_purge;
      freed = p.buf ∷ [];
    },
    rw (ne→not-== p.lock 0 unlocked, e) refl,
    record { taken = rw e refl; empty = refl; freed = rw e refl; called = rw e refl },
  )
]

-- One list in front of two others, where the first of these is empty.
append_through :
    (a b c d e f : List ℕ) → d ≡ [] → a ≡ e → b ++ c ≡ f → (a ++ b) ++ (d ++ c) ≡ e ++ f
append_through a b c d e f none_left same rest =
    ap (λ x. (a ++ b) ++ (x ++ c)) none_left
    ∙ append_assoc a b c
    ∙ ap (λ x. x ++ (b ++ c)) same
    ∙ ap (λ x. e ++ x) rest

also-Swept :
    (bytes total : ℕ) (p : Purgeable) (l : List Purgeable) (r : Purged) (c : Call Sweep)
    → IsPurged p r
    → Swept bytes (total + amount p) l c
    → Swept bytes total (p ∷ l) (also r c)
also-Swept bytes total p l r c is (swept {w} sum freed called ends) =
    let gone : (r.entry.buf == 0) ≡ true = ap (λ n. n == 0) is.empty in
    let ends' : ((0 < bytes) × (bytes ≤ w.total_purged))
        ⊎ All (λ (p : Purgeable). p.buf ≡ 0) (r.entry ∷ w.entries) =
      elim ends [ inl e ↦ inl e | inr all ↦ inr (is.empty, all) ] in
    swept (rw gone (omega (arith, sum)))
      (append_through r.freed w.freed (buffers w.entries) (own r.entry) (own p) (buffers l)
        (rw gone refl) is.freed freed)
      (append_through r.called w.called (contexts w.entries) (own_context r.entry) (own_context p)
        (contexts l) (rw gone refl) is.called called)
      ends'

enough-IsEnough : (bytes total : ℕ) → enough bytes total ≡ true → (0 < bytes) × (bytes ≤ total)
enough-IsEnough bytes total e = ground (arith, e)

sweep_on-Swept :
    (bytes total : ℕ) (p : Purgeable) (l : List Purgeable) (loop : ℕ → Call Sweep) (r : Purged)
    → IsPurged p r
    → total + amount p + resident l < 2 ^ 32
    → Swept bytes (total + amount p) l (loop (total + amount p))
    → Swept bytes total (p ∷ l) (sweep_on bytes total l loop (done r))
sweep_on-Swept bytes total p l loop r is small rest =
    let sum : total + amount p ≡ add32 total r.bytes = omega (arith, is.taken, small) in
    let stop : ℕ → Sweep = λ t. record { total_purged = t; entries = l; called = []; freed = [] } in
    subst
      (λ t.
        Swept bytes total (p ∷ l)
          (elim (enough bytes t) [ true ↦ also r (done (stop t)) | false ↦ also r (loop t) ]))
      sum
      (elim (Bool-cases (enough bytes (total + amount p))) [
        | inl e ↦ rw e (
            also-Swept bytes total p l r (done (stop (total + amount p))) is
              (swept refl refl refl (inl (enough-IsEnough bytes (total + amount p) e))))
        | inr e ↦ rw e (also-Swept bytes total p l r (loop (total + amount p)) is rest)
      ])

purge_loop-Swept :
    (bytes total : ℕ) (l : List Purgeable)
    → All (λ p. p.lock ≢ 0) l
    → total + resident l < 2 ^ 32
    → Swept bytes total l (purge_loop bytes total l)
unfolding purge_loop
purge_loop-Swept bytes total [] all small = swept refl refl refl (inr tt)
purge_loop-Swept bytes total (p ∷ l) all small =
    let (r, runs, is) = mem_purge-IsPurged p all.0 in
    let loop : ℕ → Call Sweep = λ t. purge_loop bytes t l in
    let room : total + amount p + resident l < 2 ^ 32 = omega (arith, small) in
    subst (λ c. Swept bytes total (p ∷ l) (sweep_on bytes total l loop c)) (sym runs)
      (sweep_on-Swept bytes total p l loop r is room
        (purge_loop-Swept bytes (total + amount p) l all.1 room))

-- Where nobody holds a lock and the buffers have less than 4 GiB together, purgeable_purge returns.
-- It frees the buffers of the first entries, calls on_purge for each of them that has it, in order
-- and once each, and leaves the other buffers; the bytes that it returns and those of the buffers
-- that it leaves add up to what there was; and either it was asked for some bytes and returns at
-- least as many, or no buffer is left.
pub purgeable_purge-Swept :
    (bytes : ℕ) (s : Purge)
    → s.s_list ≢ 0
    → All (λ p. p.lock ≢ 0) s.s_purgeable
    → resident s.s_purgeable < 2 ^ 32
    → Swept bytes 0 s.s_purgeable (purgeable_purge bytes s)
unfolding purgeable_purge
purgeable_purge-Swept bytes s unlocked all small =
    rw (ne→not-== s.s_list 0 unlocked)
      (purge_loop-Swept bytes 0 s.s_purgeable all (omega (arith, small)))
