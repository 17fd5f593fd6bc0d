-- ===== src/Tests/Scheduling.antt =====
-- kernel/sched.c at concrete inputs: a runnable task with no time left, a sleeper whose time has
-- come, and two that were killed, one of which waits for the other.
use minima.Base.{ℕ, ◌+◌, ◌≡◌, refl, none, some, List, [], ◌∷◌, arith, All}
use minima.Base.Counts.{count}
use minima.Sched.{Task, Tasks, TaskState, ts_runnable, ts_sleeping, ts_stopping, find_next_runnable}
use minima.Sched.Choose.{Chosen, find_next_runnable-Chosen}
use minima.Sched.Stop.{reaper, reap, resume, resume_all, find_task}
use minima.Sched.Reap.{Goes, ids, reaper-Goes}

abbrev task : ℕ → TaskState → List ℕ → ℕ → Task
task id state waiters ticks = record {
  id = id;
  k_esp = 8192;
  sleep_till = 50;
  redzone_top = 4096;
  state = state;
  cli_depth = 0;
  waiters = waiters;
  ret = 7;
  wait_retval = 0;
  ticks = ticks;
  priority = 20;
}

abbrev tasks : List Task → Tasks
tasks l = record {
  runqueue = l;
  current = 1;
  idle_task = 0;
  reaper_call = record { count = 0; waiters = [] };
  ms = 60;
  freed = [];
}

abbrev tired : List Task
tired = task 1 ts_runnable [] 0 ∷ task 2 ts_sleeping [] 0 ∷ []

find_next_runnable-Chosen_example : Chosen (tasks tired) (find_next_runnable 2 (tasks tired))
find_next_runnable-Chosen_example =
    find_next_runnable-Chosen (tasks tired) (omega arith, (omega arith, tt))
      (omega arith, (omega arith, tt)) 0

abbrev dying : List Task
dying = task 3 ts_stopping (4 ∷ []) 5 ∷ task 4 ts_stopping [] 5 ∷ []

abbrev revived : Tasks
revived = record (tasks dying) {
  runqueue = record (task 4 ts_runnable [] 5) { wait_retval = 7 } ∷ [];
  freed = 3 ∷ [];
}

reaped : reaper (tasks dying) ≡ some revived
unfolding reaper reap resume_all resume
reaped = refl

reaper-Goes_example :
    All Goes revived.runqueue
    × ((x : ℕ)
        → count x (ids revived.runqueue) + count x revived.freed ≡ count x (ids dying) + count x [])
reaper-Goes_example = reaper-Goes (tasks dying) reaped

none_seven : find_task 7 tired ≡ none
unfolding find_task
none_seven = refl

mine : find_task 1 tired ≡ some (task 1 ts_runnable [] 0)
unfolding find_task
mine = refl
