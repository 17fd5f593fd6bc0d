-- ===== src/Sched/Stop.antt =====
-- kernel/sched.c: `sched`, and how tasks are killed, waited for and reaped.
use minima.Base.{
  remove_at, ℕ, zero, suc, ◌+◌, ◌-◌, ◌^◌, true, false, not, ◌||◌, Option, none, some, List, [], ◌∷◌,
  leb, ◌==◌, if◌then◌else◌, get_elem?, length, prepend,
}
use minima.Sched.{
  Task, Tasks, ts_runnable, ts_wait_task, ts_stopping, is_stopping, set_state, post_reaper,
  find_next_runnable,
}

-- A change of the task that a pointer names.
unfoldable pub with_task : ℕ → (Task → Task) → List Task → List Task
with_task w f [] = []
with_task w f (t ∷ l) = if t.id == w then f t ∷ l else t ∷ with_task w f l

abbrev pub chosen_id : Option ℕ → Tasks → ℕ
chosen_id none s = s.idle_task
chosen_id (some i) s = elim (get_elem? s.runqueue i) [ none ↦ s.idle_task | some t ↦ t.id ]

-- `sched` up to the switch; `esp` is the stack pointer that `switch_to` saves. `none` is that the
-- fuel of `find_next_runnable` runs out.
unfoldable pub sched : ℕ → ℕ → Tasks → Option Tasks
unfolding with_task
sched fuel esp s = elim (find_next_runnable fuel s) [
  | none ↦ none
  | some (i, s') ↦
      let next = chosen_id i s' in
      some (
        if next == s'.current then s' else record s' {
          current = next;
          runqueue = with_task s'.current (λ t. record t { k_esp = esp }) s'.runqueue;
        })
]

-- `to_runqueue`
unfoldable pub to_runqueue : Task → Tasks → Tasks
to_runqueue t s = record s { runqueue = prepend t s.runqueue }

-- `task_kill`: what it returns, and the tasks.
unfoldable pub task_kill : ℕ → ℕ → ℕ → Tasks → Option (ℕ × Tasks)
unfolding sched
task_kill fuel esp t s =
    let s' = post_reaper (record s { runqueue = set_state t ts_stopping s.runqueue }) in
    if t == s.current
    then elim (sched fuel esp s') [ none ↦ none | some s'' ↦ some (t, s'') ]
    else some (t, s')

unfoldable pub find_task : ℕ → List Task → Option Task
find_task tid [] = none
find_task tid (t ∷ l) = if t.id == tid then some t else find_task tid l

-- What a call of `wait_tid` comes to: it returns a value, calls `sched`, or fails its assertion.
pub data Waited : Type 0 where
  returns : ℕ → Tasks → Waited
  switches : Tasks → Waited
  fails : Waited

abbrev pub minus_one : ℕ
minus_one = 2 ^ 32 - 1

abbrev pub wait_retval_of : ℕ → List Task → ℕ
wait_retval_of w l = elim (find_task w l) [ none ↦ 0 | some t ↦ t.wait_retval ]

-- `wait_tid` up to the call of `sched`; an id is less than 1 if it is 0 or its sign bit is set.
unfoldable pub wait_tid : ℕ → Tasks → Waited
unfolding with_task find_task
wait_tid task_id s =
    if task_id == 0 || leb (2 ^ 31) task_id
    then returns minus_one s
    else let pushed =
        with_task s.current (λ t. record t { cli_depth = t.cli_depth + 1 }) s.runqueue in
      if not (wait_retval_of s.current s.runqueue == 0)
      then fails
      else elim (find_task task_id s.runqueue) [
        | none ↦ returns minus_one (record s { runqueue = pushed })
        | some waitee ↦ switches (record s {
          runqueue =
              with_task task_id (λ t. record t { waiters = prepend s.current t.waiters })
                (set_state s.current ts_wait_task pushed);
        })
      ]

-- `wait_tid` once `sched` has returned.
unfoldable pub wait_tid_end : Tasks → ℕ × Tasks
wait_tid_end s = (
  wait_retval_of s.current s.runqueue,
  record s {
    runqueue =
        with_task s.current (λ t. record t { cli_depth = t.cli_depth - 1; wait_retval = 0 })
          s.runqueue;
  },
)

-- The waiters of a task that is gone are resumed. `none` is a write to a task whose memory is free.
unfoldable pub resume : ℕ → ℕ → List Task → Option (List Task)
resume w ret [] = none
resume w ret (t ∷ l) =
    let rest = resume w ret l in
    if t.id == w
    then some (record t { wait_retval = ret; state = ts_runnable } ∷ l)
    else elim rest [ none ↦ none | some l' ↦ some (t ∷ l') ]

unfoldable pub resume_all : List ℕ → ℕ → List Task → Option (List Task)
unfolding resume
resume_all [] ret l = some l
resume_all (w ∷ ws) ret l = elim (resume w ret l) [ none ↦ none | some l' ↦ resume_all ws ret l' ]

-- The loop of `reaper` over the run queue, from a position on, with the number of tasks left.
-- `none` is also the failed assertion that the task is not the current one.
unfoldable pub reap : ℕ → ℕ → Tasks → Option Tasks
unfolding resume_all
reap zero i s = some s
reap (suc n) i s = elim (get_elem? s.runqueue i) [
  | none ↦ some s
  | some t ↦ elim (is_stopping t.state) [
    | false ↦ reap n (suc i) s
    | true ↦ elim (t.id == s.current) [
      | true ↦ none
      | false ↦ elim (resume_all t.waiters t.ret (remove_at s.runqueue i)) [
        | none ↦ none
        | some l ↦ reap n i (record s { runqueue = l; freed = t.id ∷ s.freed })
      ]
    ]
  ]
]

-- `reaper` from the return of `sem_pend` to its next call
unfoldable pub reaper : Tasks → Option Tasks
unfolding reap
reaper s = reap (length s.runqueue) 0 s
