-- ===== src/Purge.antt =====
-- kernel/mm/purge.c: memory that may be taken back while nobody holds its lock. The lock of a buffer and
-- that of the list are the counts of their semaphores, and a call that would sleep on one is `sleeps`.
pub mod Sweeps
pub mod Held
use minima.Base.{
  ◌-◌, ℕ, zero, suc, ◌+◌, Bool, true, false, not, ◌&&◌, Option, none, some, List, [], ◌∷◌, ◌++◌,
  leb, ◌==◌, if◌then◌else◌, prepend, add32,
}

-- `struct purgeable`; NULL is 0, and `on_purge` is its context, none where there is no function.
pub record Purgeable : Type 0 where
  pub buf : ℕ
  pub bytes : ℕ
  pub lock : ℕ
  pub on_purge : Option ℕ

-- `s_purgeable` and `s_list`
pub record Purge : Type 0 where
  pub s_purgeable : List Purgeable
  pub s_list : ℕ

pub data Call (A : Type 0) : Type 0 where
  done : A → Call A
  sleeps : Call A
  fails : Call A

-- `purgeable_alloc`, with what kmalloc returns for the entry and for the buffer; none is NULL.
unfoldable pub purgeable_alloc : ℕ → ℕ → ℕ → Option ℕ → Purge → Call (Option Purgeable × Purge)
purgeable_alloc entry buf bytes on_purge s =
    let p : Purgeable = record { buf = buf; bytes = bytes; lock = 1; on_purge = on_purge } in
    if entry == 0
    then done (none, s)
    else if s.s_list == 0
    then sleeps
    else done (some p, record s { s_purgeable = prepend p s.s_purgeable })

-- What is purged: the bytes, the entry after it, the contexts for which `on_purge` is called, and the
-- buffers that are freed.
pub record Purged : Type 0 where
  pub bytes : ℕ
  pub entry : Purgeable
  pub called : List ℕ
  pub freed : List ℕ

abbrev pub context : Option ℕ → List ℕ
context none = []
context (some ctx) = ctx ∷ []

unfoldable pub mem_purge : Purgeable → Call Purged
mem_purge p =
    if p.lock == 0
    then sleeps
    else if p.buf == 0
    then done (record { bytes = 0; entry = p; called = []; freed = [] })
    else done (record {
      bytes = p.bytes;
      entry = record p { buf = 0 };
      called = context p.on_purge;
      freed = p.buf ∷ [];
    })

-- What the loop of `purgeable_purge` comes to.
pub record Sweep : Type 0 where
  pub total_purged : ℕ
  pub entries : List Purgeable
  pub called : List ℕ
  pub freed : List ℕ

abbrev pub enough : ℕ → ℕ → Bool
enough bytes total_purged = not (bytes == 0) && leb bytes total_purged

abbrev pub also : Purged → Call Sweep → Call Sweep
also r sleeps = sleeps
also r fails = fails
also r (done w) = done (record w {
  entries = r.entry ∷ w.entries;
  called = r.called ++ w.called;
  freed = r.freed ++ w.freed;
})

abbrev pub sweep_on : ℕ → ℕ → List Purgeable → (ℕ → Call Sweep) → Call Purged → Call Sweep
sweep_on bytes total l rest sleeps = sleeps
sweep_on bytes total l rest fails = fails
sweep_on bytes total l rest (done r) =
    let total' = add32 total r.bytes in
    elim (enough bytes total') [
      | true ↦
          also r (done (record { total_purged = total'; entries = l; called = []; freed = [] }))
      | false ↦ also r (rest total')
    ]

unfoldable pub purge_loop : ℕ → ℕ → List Purgeable → Call Sweep
unfolding mem_purge
purge_loop bytes total [] =
    done (record { total_purged = total; entries = []; called = []; freed = [] })
purge_loop bytes total (p ∷ l) =
    sweep_on bytes total l (λ total'. purge_loop bytes total' l) (mem_purge p)

unfoldable pub purgeable_purge : ℕ → Purge → Call Sweep
unfolding purge_loop
purgeable_purge bytes s = if s.s_list == 0 then sleeps else purge_loop bytes 0 s.s_purgeable

-- Whether the buffer has been purged, its address, and the entry, which is locked then; `fresh` is what
-- kmalloc returns.
unfoldable pub purgeable_get : ℕ → Purgeable → Call (Bool × ℕ × Purgeable)
purgeable_get fresh p =
    let buf = if p.buf == 0 then fresh else p.buf in
    if p.lock == 0
    then sleeps
    else done (p.buf == 0, buf, record p { lock = p.lock - 1; buf = buf })

unfoldable pub put_entry : ℕ → List Purgeable → List Purgeable
put_entry ptr [] = []
put_entry ptr (p ∷ l) =
    let rest = put_entry ptr l in
    if p.buf == ptr then record p { lock = p.lock + 1 } ∷ l else p ∷ rest

unfoldable pub purgeable_put : ℕ → List Purgeable → Call (List Purgeable)
unfolding put_entry
purgeable_put ptr l = if ptr == 0 then fails else done (put_entry ptr l)

-- `purgeable_free` of the entry at a place: what is freed besides the entry itself, and the list.
unfoldable pub remove_entry : ℕ → List Purgeable → List Purgeable
remove_entry i [] = []
remove_entry zero (p ∷ l) = l
remove_entry (suc i) (p ∷ l) = p ∷ remove_entry i l

unfoldable pub purgeable_free : Purge → ℕ → Purgeable → Call (List ℕ × Purge)
unfolding remove_entry
purgeable_free s i p =
    if p.lock == 0
    then sleeps
    else if p.bytes == 0
    then fails
    else if s.s_list == 0
    then sleeps
    else done (
      if p.buf == 0 then [] else p.buf ∷ [],
      record s { s_purgeable = remove_entry i s.s_purgeable },
    )
