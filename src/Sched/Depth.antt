-- ===== src/Sched/Depth.antt =====
-- kernel/sched.c, `wait_tid`: the interrupt depth of the caller.
use minima.Base.{
  ℕ, ◌+◌, ◌^◌, ◌<◌, ◌≡◌, true, ap, ==_refl, none, some, List, [], ◌∷◌, arith, ◌==◌, Bool-cases, inl,
  inr,
}
use minima.Sched.{Task, Tasks}
use minima.Sched.Stop.{find_task, with_task, wait_tid, returns, minus_one}

find_task-with_task :
    (w : ℕ) (f : Task → Task) (l : List Task) {t : Task}
    → find_task w l ≡ some t
    → (f t).id ≡ w
    → find_task w (with_task w f l) ≡ some (f t)
unfolding find_task with_task
find_task-with_task w f [] e same = cc
find_task-with_task w f (u ∷ l) {t} e same = elim (Bool-cases (u.id == w)) [
  | inl here ↦
      let q : u ≡ t = ground (arith, e, here) in
      let hit : ((f u).id == w) ≡ true = rw (q, same) (==_refl w) in
      rw (here, hit) (ap (λ v. some (f v)) q)
  | inr there ↦ rw (there, there) (find_task-with_task w f l (rw there at e) same)
]

-- wait_tid with a positive id that no task has, called by a task in the run queue with no return
-- value pending, returns -1 and leaves the cli depth of its caller one higher.
pub wait_tid_leaks_depth :
    (s : Tasks) (task_id : ℕ) (t : Task)
    → 0 < task_id
    → task_id < 2 ^ 31
    → find_task task_id s.runqueue ≡ none
    → find_task s.current s.runqueue ≡ some t
    → t.id ≡ s.current
    → t.wait_retval ≡ 0
    → (s' : Tasks) × (wait_tid task_id s ≡ returns minus_one s')
      × (find_task s.current s'.runqueue ≡ some (record t { cli_depth = t.cli_depth + 1 }))
unfolding wait_tid
wait_tid_leaks_depth s task_id t pos hi gone mine same idle = (
  record s {
    runqueue = with_task s.current (λ t. record t { cli_depth = t.cli_depth + 1 }) s.runqueue;
  },
  ground (arith, gone, mine, idle),
  find_task-with_task s.current (λ t. record t { cli_depth = t.cli_depth + 1 }) s.runqueue mine
      same,
)
