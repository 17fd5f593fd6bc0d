-- ===== src/Sync.antt =====
-- kernel/sync.c: the counting semaphore, as the steps that its callers take one at a time. The
-- address of a task in a list of waiters is the task's number.
pub mod Sound
pub mod Exclusion
pub mod Wakeup
use minima.Base.{
  ℕ, zero, suc, ◌+◌, ◌-◌, ◌≡◌, ◌≢◌, Option, none, some, List, [], ◌∷◌, get_elem?, set, prepend,
  if◌then◌else◌, ◌==◌,
}

-- `struct semaphore`, less its name; the count is taken to stay below 2 ^ 31.
pub record Semaphore : Type 0 where
  pub count : ℕ
  pub waiters : List ℕ

abbrev pub sem_init : ℕ → Semaphore
sem_init value = record { count = value; waiters = [] }

-- Where a task stands with a semaphore: it uses it for nothing, runs `sem_pend` with so many tries
-- left and the value `val` that it read last, has seen its tries fail, sleeps in the list of
-- waiters, or has returned from `sem_pend`; or it runs `sem_post`, and has raised the count, has seen
-- that the list of waiters is not empty, has taken the address of a waiter, or has removed that
-- waiter. An interrupt handler that posts is a task here.
pub data Phase : Type 0 where
  outside : Phase
  reading : ℕ → Phase
  swapping : ℕ → ℕ → Phase
  giving_up : Phase
  asleep : Phase
  inside : Phase
  raised : Phase
  seen : Phase
  picked : ℕ → Phase
  removed : ℕ → Phase

pub record System : Type 0 where
  pub sem : Semaphore
  pub tasks : List Phase

abbrev pub tries : ℕ
tries = 2

-- `v_ilist_remove` of the first waiter
abbrev pub first_waiter : List ℕ → Option ℕ
first_waiter [] = none
first_waiter (w ∷ ws) = some w

abbrev pub other_waiters : List ℕ → List ℕ
other_waiters [] = []
other_waiters (w ∷ ws) = ws

-- `v_ilist_remove` of a task, as one step; it does nothing where the task is in no list.
unfoldable pub remove_waiter : ℕ → List ℕ → List ℕ
remove_waiter w [] = []
remove_waiter w (v ∷ ws) = let rest = remove_waiter w ws in if v == w then ws else v ∷ rest

-- `waiter->state = ts_runnable`: a task that sleeps goes round the loop of `sem_pend` again.
abbrev pub woken : Phase → Phase
woken outside = outside
woken (reading n) = reading n
woken (swapping n val) = swapping n val
woken giving_up = giving_up
woken asleep = reading tries
woken inside = inside
woken raised = raised
woken seen = seen
woken (picked w) = picked w
woken (removed w) = removed w

abbrev pub wake_found : List Phase → ℕ → Option Phase → List Phase
wake_found tasks w none = tasks
wake_found tasks w (some p) = set tasks w (woken p)

abbrev pub wake : List Phase → ℕ → List Phase
wake tasks w = wake_found tasks w (get_elem? tasks w)

-- `lock inc`, the first thing that `sem_post` does
unfoldable pub raise_count : ℕ → System → System
raise_count i s = record {
  sem = record { count = s.sem.count + 1; waiters = s.sem.waiters };
  tasks = set s.tasks i raised;
}

-- The steps of `sem_pend`: enter, read the count, exchange it, enter the list and sleep.
pub data Pend (s : System) : System → Type 0 where
  enter :
      {t : System} (i : ℕ)
      → get_elem? s.tasks i ≡ some outside
      → t ≡ record s { tasks = set s.tasks i (reading tries) }
      → Pend s t
  -- `val = s->count` is not 0
  read_value :
      {t : System} (i n : ℕ)
      → get_elem? s.tasks i ≡ some (reading (suc n))
      → s.sem.count ≢ 0
      → t ≡ record s { tasks = set s.tasks i (swapping n s.sem.count) }
      → Pend s t
  -- `val = s->count` is 0: the next try
  read_zero :
      {t : System} (i n : ℕ)
      → get_elem? s.tasks i ≡ some (reading (suc n))
      → s.sem.count ≡ 0
      → t ≡ record s { tasks = set s.tasks i (reading n) }
      → Pend s t
  -- `cmpxchg(&s->count, val, val - 1)` finds `val`: `sem_pend` returns
  take :
      {t : System} (i n val : ℕ)
      → get_elem? s.tasks i ≡ some (swapping n val)
      → s.sem.count ≡ val
      → t ≡ record {
        sem = record { count = val - 1; waiters = s.sem.waiters };
        tasks = set s.tasks i inside;
      }
      → Pend s t
  -- it finds another value: the next try
  miss :
      {t : System} (i n val : ℕ)
      → get_elem? s.tasks i ≡ some (swapping n val)
      → s.sem.count ≢ val
      → t ≡ record s { tasks = set s.tasks i (reading n) }
      → Pend s t
  -- no try is left
  give_up :
      {t : System} (i : ℕ)
      → get_elem? s.tasks i ≡ some (reading 0)
      → t ≡ record s { tasks = set s.tasks i giving_up }
      → Pend s t
  -- interrupts are off from here on: the task enters the list and leaves the processor
  sleep :
      {t : System} (i : ℕ)
      → get_elem? s.tasks i ≡ some giving_up
      → t ≡ record {
        sem = record { count = s.sem.count; waiters = prepend i s.sem.waiters };
        tasks = set s.tasks i asleep;
      }
      → Pend s t

-- The steps of `sem_post` behind the first one. Where another call has emptied the list between the
-- test and `v_ilist_get_first`, this takes the head of the list for a task, and no step is given.
pub data Post (s : System) : System → Type 0 where
  no_waiters :
      {t : System} (i : ℕ)
      → get_elem? s.tasks i ≡ some raised
      → s.sem.waiters ≡ []
      → t ≡ record s { tasks = set s.tasks i outside }
      → Post s t
  some_waiter :
      {t : System} (i : ℕ)
      → get_elem? s.tasks i ≡ some raised
      → s.sem.waiters ≢ []
      → t ≡ record s { tasks = set s.tasks i seen }
      → Post s t
  -- `v_ilist_get_first`
  get_first :
      {t : System} (i w : ℕ)
      → get_elem? s.tasks i ≡ some seen
      → first_waiter s.sem.waiters ≡ some w
      → t ≡ record s { tasks = set s.tasks i (picked w) }
      → Post s t
  remove :
      {t : System} (i w : ℕ)
      → get_elem? s.tasks i ≡ some (picked w)
      → t ≡ record {
        sem = record { count = s.sem.count; waiters = remove_waiter w s.sem.waiters };
        tasks = set s.tasks i (removed w);
      }
      → Post s t
  make_runnable :
      {t : System} (i w : ℕ)
      → get_elem? s.tasks i ≡ some (removed w)
      → t ≡ record s { tasks = wake (set s.tasks i outside) w }
      → Post s t

-- What a system comes to in such steps, in any order, with the number of posts by tasks that are not
-- inside, and the number of tasks that have gone on without a post.
pub data Reach (s : System) : ℕ → ℕ → System → Type 0 where
  begun : Reach s 0 0 s
  pend_step :
      {given kept : ℕ} {t u : System} → Reach s given kept t → Pend t u → Reach s given kept u
  post_step :
      {given kept : ℕ} {t u : System} → Reach s given kept t → Post t u → Reach s given kept u
  -- `sem_post` by a task that is inside
  give_back :
      {given kept : ℕ} {t u : System} (i : ℕ)
      → Reach s given kept t
      → get_elem? t.tasks i ≡ some inside
      → u ≡ raise_count i t
      → Reach s given kept u
  -- `sem_post` by another task
  give :
      {given kept : ℕ} {t u : System} (i : ℕ)
      → Reach s given kept t
      → get_elem? t.tasks i ≡ some outside
      → u ≡ raise_count i t
      → Reach s (suc given) kept u
  -- a task that is inside does not post
  keep :
      {given kept : ℕ} {t u : System} (i : ℕ)
      → Reach s given kept t
      → get_elem? t.tasks i ≡ some inside
      → u ≡ record t { tasks = set t.tasks i outside }
      → Reach s given (suc kept) u
