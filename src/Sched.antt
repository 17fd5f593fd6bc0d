-- ===== src/Sched.antt =====
-- kernel/sched.c: which task runs next, and how tasks stop and are waited for. A task is known by
-- its id, and its place in the run queue by its position. A C `int` is its 32-bit word. Tasks that
-- run no code here keep their stacks and registers to themselves.
pub mod Pick
pub mod Choose
pub mod Stop
pub mod Reap
pub mod Depth
use minima.Base.{
  ℕ, zero, suc, ◌+◌, ◌-◌, ◌/◌, Bool, true, false, not, ◌&&◌, Option, none, some, List, [], ◌∷◌, ltb,
  leb, ◌==◌, if◌then◌else◌, get_elem?, set, length, prepend,
}
use minima.Sync.{Semaphore, first_waiter, other_waiters}

-- `enum task_state`
pub data TaskState : Type 0 where
  ts_dead ts_runnable ts_wait ts_wait_task ts_wait_semaphore ts_sleeping ts_stopping : TaskState

abbrev pub is_runnable : TaskState → Bool
is_runnable ts_runnable = true
is_runnable ts_dead = false
is_runnable ts_wait = false
is_runnable ts_wait_task = false
is_runnable ts_wait_semaphore = false
is_runnable ts_sleeping = false
is_runnable ts_stopping = false

abbrev pub is_sleeping : TaskState → Bool
is_sleeping ts_sleeping = true
is_sleeping ts_runnable = false
is_sleeping ts_dead = false
is_sleeping ts_wait = false
is_sleeping ts_wait_task = false
is_sleeping ts_wait_semaphore = false
is_sleeping ts_stopping = false

abbrev pub is_stopping : TaskState → Bool
is_stopping ts_stopping = true
is_stopping ts_sleeping = false
is_stopping ts_runnable = false
is_stopping ts_dead = false
is_stopping ts_wait = false
is_stopping ts_wait_task = false
is_stopping ts_wait_semaphore = false

-- `struct task`, less what only its own code, its stacks and its files use
pub record Task : Type 0 where
  pub id : ℕ
  pub k_esp : ℕ
  pub sleep_till : ℕ
  pub redzone_top : ℕ
  pub state : TaskState
  pub cli_depth : ℕ
  pub waiters : List ℕ
  pub ret : ℕ
  pub wait_retval : ℕ
  pub ticks : ℕ
  pub priority : ℕ

-- `runqueue`, `current`, `idle_task`, `reaper_call`, `system_uptime_ms`, and the tasks whose memory
-- is free again
pub record Tasks : Type 0 where
  pub runqueue : List Task
  pub current : ℕ
  pub idle_task : ℕ
  pub reaper_call : Semaphore
  pub ms : ℕ
  pub freed : List ℕ

-- A write through a pointer to a task.
unfoldable pub set_state : ℕ → TaskState → List Task → List Task
set_state w st [] = []
set_state w st (t ∷ l) = if t.id == w then record t { state = st } ∷ l else t ∷ set_state w st l

abbrev pub wake_first : Option ℕ → List Task → List Task
wake_first none l = l
wake_first (some w) l = set_state w ts_runnable l

-- `sem_post(&reaper_call)`
unfoldable pub post_reaper : Tasks → Tasks
unfolding set_state
post_reaper s = record s {
  reaper_call = record {
    count = s.reaper_call.count + 1;
    waiters = other_waiters s.reaper_call.waiters;
  };
  runqueue = wake_first (first_waiter s.reaper_call.waiters) s.runqueue;
}

-- `update_task_state` of the task at a position, in its two tests.
unfoldable pub stop_overflow : ℕ → Tasks → Tasks
unfolding post_reaper
stop_overflow i s = elim (get_elem? s.runqueue i) [
  | none ↦ s
  | some t ↦
      if is_runnable t.state && ltb t.k_esp t.redzone_top
      then post_reaper (record s { runqueue = set s.runqueue i (record t { state = ts_stopping }) })
      else s
]

unfoldable pub wake_sleeper : ℕ → Tasks → Tasks
wake_sleeper i s = elim (get_elem? s.runqueue i) [
  | none ↦ s
  | some t ↦
      if is_sleeping t.state && leb t.sleep_till s.ms
      then record s { runqueue = set s.runqueue i (record t { state = ts_runnable }) }
      else s
]

unfoldable pub update_task_state : ℕ → Tasks → Tasks
unfolding stop_overflow wake_sleeper
update_task_state i s = wake_sleeper i (stop_overflow i s)

-- `next` with `max_ticks`; with no `next`, `max_ticks` is -1.
abbrev pub Choice : Type 0
Choice = Option (ℕ × ℕ)

abbrev pub exceeds : ℕ → Choice → Bool
exceeds ticks none = true
exceeds ticks (some (i, max_ticks)) = ltb max_ticks ticks

unfoldable pub consider : ℕ → List Task → Choice → Choice
consider i l c = elim (get_elem? l i) [
  | none ↦ c
  | some t ↦ if is_runnable t.state && exceeds t.ticks c then some (i, t.ticks) else c
]

-- The first loop over the run queue in `find_next_runnable`, with the number of tasks left.
unfoldable pub scan : ℕ → ℕ → Tasks → Choice → Tasks × Choice
unfolding update_task_state consider
scan zero i s c = (s, c)
scan (suc n) i s c = let s' = update_task_state i s in scan n (suc i) s' (consider i s'.runqueue c)

-- The second loop, and one round of it.
abbrev pub charged : Task → Task
charged t = if is_runnable t.state then record t { ticks = t.ticks / 2 + t.priority } else t

unfoldable pub recharge : List Task → List Task
recharge [] = []
recharge (t ∷ l) = charged t ∷ recharge l

-- `find_next_runnable`: the position of the task, or `NULL`; `none` is that the fuel runs out.
unfoldable pub find_next_runnable : ℕ → Tasks → Option (Option ℕ × Tasks)
unfolding scan recharge
find_next_runnable zero s = none
find_next_runnable (suc fuel) s =
    let (s', c) = scan (length s.runqueue) 0 s none in
    let again = find_next_runnable fuel (record s' { runqueue = recharge s'.runqueue }) in
    elim c [ none ↦ some (none, s') | some (i, zero) ↦ again | some (i, suc m) ↦ some (some i, s') ]
