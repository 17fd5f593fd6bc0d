-- ===== src/Sched/Choose.antt =====
-- kernel/sched.c, `find_next_runnable`: it returns, and which task it returns.
use mathlib.Core.Path.{subst, ap₂}
use native.Mathlib.Decide.{ℕ_discrete}
use minima.Base.{
  ℕ, zero, suc, ◌<◌, ◌≡◌, refl, ap, sym, ◌∙◌, true, false, Option, none, some, List, [], ◌∷◌, map,
  arith, get_elem?, length, All, ◌⊎◌, inl, inr, Option-cases,
}
use minima.Sched.{Task, Tasks, is_runnable, scan, charged, recharge, find_next_runnable}
use minima.Sched.Pick.{InStack, woken, pick, scan-pick, pick-none, pick-some, pick-most, NoMore}

abbrev Rested : Task → Type 0
Rested t = is_runnable t.state ≡ false

-- What `find_next_runnable` comes to: no task can run, or one that has time left and than which no
-- task that can run has more. The sleepers whose time has come are awake, and every task that can
-- run may have got new time.
pub data Chosen (s : Tasks) : Option (Option ℕ × Tasks) → Type 0 where
  idle :
      All Rested (map (woken s.ms) s.runqueue)
      → Chosen s (some (none, record s { runqueue = map (woken s.ms) s.runqueue }))
  runs :
      {l : List Task} (i : ℕ) (t : Task)
      → (l ≡ map (woken s.ms) s.runqueue) ⊎ (l ≡ recharge (map (woken s.ms) s.runqueue))
      → get_elem? l i ≡ some t
      → is_runnable t.state ≡ true
      → 0 < t.ticks
      → All (NoMore t.ticks) l
      → Chosen s (some (some i, record s { runqueue = l }))

InStack-woken : (ms : ℕ) (l : List Task) → All InStack l → All InStack (map (woken ms) l)
InStack-woken ms [] h = tt
InStack-woken ms (t ∷ l) h = (ground (arith, h.0), InStack-woken ms l h.1)

InStack-recharge : (l : List Task) → All InStack l → All InStack (recharge l)
unfolding recharge
InStack-recharge [] h = tt
InStack-recharge (t ∷ l) h = (ground (arith, h.0), InStack-recharge l h.1)

length-recharge : (l : List Task) → length (recharge l) ≡ length l
unfolding recharge
length-recharge [] = refl
length-recharge (t ∷ l) = ap suc (length-recharge l)

length-woken : (ms : ℕ) (l : List Task) → length (map (woken ms) l) ≡ length l
length-woken ms [] = refl
length-woken ms (t ∷ l) = ap suc (length-woken ms l)

woken_twice : (ms : ℕ) (t : Task) → woken ms (woken ms t) ≡ woken ms t
woken_twice ms t = ground arith

abbrev HasPriority : Task → Type 0
HasPriority t = 0 < t.priority

abbrev HasTime : Task → Type 0
HasTime t = is_runnable t.state ≡ true → 0 < t.ticks

woken-charged : (ms : ℕ) (t : Task) → woken ms (charged (woken ms t)) ≡ charged (woken ms t)
woken-charged ms t = ground arith

charged-HasTime : (t : Task) → HasPriority t → HasTime (charged t)
charged-HasTime t h can = ground arith

woken-HasPriority : (ms : ℕ) (t : Task) → HasPriority t → HasPriority (woken ms t)
woken-HasPriority ms t h = ground arith

-- Nobody is left to wake in the second round.
woken-recharge :
    (ms : ℕ) (l : List Task)
    → map (woken ms) (recharge (map (woken ms) l)) ≡ recharge (map (woken ms) l)
unfolding recharge
woken-recharge ms [] = refl
woken-recharge ms (t ∷ l) = ap₂ ◌∷◌ (woken-charged ms t) (woken-recharge ms l)

HasTime-recharge :
    (ms : ℕ) (l : List Task) → All HasPriority l → All HasTime (recharge (map (woken ms) l))
unfolding recharge
HasTime-recharge ms [] h = tt
HasTime-recharge ms (t ∷ l) h =
    (charged-HasTime (woken ms t) (woken-HasPriority ms t h.0), HasTime-recharge ms l h.1)

Rested-get :
    (l : List Task) (i : ℕ) (t : Task)
    → All Rested l
    → get_elem? l i ≡ some t
    → is_runnable t.state ≡ false
Rested-get [] i t h e = cc
Rested-get (u ∷ l) zero t h e = ground (arith, h.0, e)
Rested-get (u ∷ l) (suc i) t h e = Rested-get l i t h.1 e

HasTime-get :
    (l : List Task) (i : ℕ) (t : Task)
    → All HasTime l
    → get_elem? l i ≡ some t
    → is_runnable t.state ≡ true
    → 0 < t.ticks
HasTime-get [] i t h e can = cc
HasTime-get (u ∷ l) zero t h e can = ground (arith, h.0, e)
HasTime-get (u ∷ l) (suc i) t h e can = HasTime-get l i t h.1 e can

charged-keeps : (t : Task) → is_runnable (charged t).state ≡ is_runnable t.state
charged-keeps t = ground arith

-- A task that can run still can after the second loop.
get-recharge :
    (l : List Task) (i : ℕ) (t : Task)
    → get_elem? l i ≡ some t
    → get_elem? (recharge l) i ≡ some (charged t)
unfolding recharge
get-recharge [] i t e = cc
get-recharge (u ∷ l) zero t e = ground (arith, e)
get-recharge (u ∷ l) (suc i) t e = get-recharge l i t e

-- One round, as the rest of the function sees it.
round :
    (s : Tasks)
    → All InStack s.runqueue
    → scan (length s.runqueue) 0 s none ≡ (
      record s { runqueue = map (woken s.ms) s.runqueue },
      pick 0 (map (woken s.ms) s.runqueue) none,
    )
round s ok = scan-pick s [] s.runqueue none refl ok

abbrev recharged : Tasks → Tasks
recharged s = record s { runqueue = recharge (map (woken s.ms) s.runqueue) }

-- The second round finds the tasks as the second loop left them, each with time.
second_round :
    (s : Tasks)
    → All InStack s.runqueue
    → scan (length (recharged s).runqueue) 0 (recharged s) none
      ≡ (recharged s, pick 0 (recharged s).runqueue none)
second_round s ok =
    let l = map (woken s.ms) s.runqueue in
    rw (
      round (recharged s) (InStack-recharge l (InStack-woken s.ms s.runqueue ok)),
      woken-recharge s.ms s.runqueue,
    )

pick-found :
    (l : List Task) {i m : ℕ}
    → pick 0 l none ≡ some (i, m)
    → (t : Task) × (get_elem? l i ≡ some t)
      × (is_runnable t.state ≡ true)
      × (t.ticks ≡ m)
      × All (NoMore t.ticks) l
pick-found l {i} {m} e = elim (pick-some 0 l none e) [
  | inl never ↦ cc
  | inr (d, t, at_d, got, can, ticks) ↦
      let same : i ≡ d = omega (arith, at_d) in
      (t, rw same got, can, ticks, rw ticks (pick-most 0 l none e).0)
]

-- What a call does when its first loop found no task, one with time, or one without.
find-none :
    (fuel : ℕ) (s s' : Tasks)
    → scan (length s.runqueue) 0 s none ≡ (s', none)
    → find_next_runnable (suc fuel) s ≡ some (none, s')
unfolding find_next_runnable
find-none fuel s s' e = rw (e, find_next_runnable, e)

find-some :
    (fuel : ℕ) (s s' : Tasks) (i m : ℕ)
    → scan (length s.runqueue) 0 s none ≡ (s', some (i, m))
    → 0 < m
    → find_next_runnable (suc fuel) s ≡ some (some i, s')
unfolding find_next_runnable
find-some fuel s s' i zero e pos = absurd (omega arith)
find-some fuel s s' i (suc m) e pos = rw (e, find_next_runnable, e)

find-again :
    (fuel : ℕ) (s s' : Tasks) (i : ℕ)
    → scan (length s.runqueue) 0 s none ≡ (s', some (i, 0))
    → find_next_runnable (suc fuel) s
      ≡ find_next_runnable fuel (record s' { runqueue = recharge s'.runqueue })
unfolding find_next_runnable
find-again fuel s s' i e = rw (e, find_next_runnable, e)

module _ (s : Tasks) (ok : All InStack s.runqueue) (pri : All HasPriority s.runqueue)
    (fuel : ℕ) where
  -- The second call, when the first loop of the first found a task with no time left.
  second :
      (j : ℕ) (u : Task)
      → get_elem? (map (woken s.ms) s.runqueue) j ≡ some u
      → is_runnable u.state ≡ true
      → Chosen s (find_next_runnable (suc fuel) (recharged s))
  second j u got can = elim (Option-cases (pick 0 (recharged s).runqueue none)) [
    | inl e ↦
        let rested = (pick-none 0 (recharged s).runqueue none e).1 in
        let still =
          Rested-get (recharged s).runqueue j (charged u) rested
            (get-recharge (map (woken s.ms) s.runqueue) j u got) in
        absurd (ground (arith, charged-keeps u, still))
    | inr ((i, m), e) ↦
        let (t, got', can', ticks, most) = pick-found (recharged s).runqueue e in
        let time =
          HasTime-get (recharged s).runqueue i t (HasTime-recharge s.ms s.runqueue pri) got' can' in
        subst (Chosen s)
          (sym (
            find-some fuel (recharged s) (recharged s) i m
              (second_round s ok ∙ ap (λ c. (recharged s, c)) e) (omega (arith, time, ticks))))
          (runs i t (inr refl) got' can' time most)
  ]

  -- If no task has overflown its stack and every priority is above 0, two rounds are enough for
  -- find_next_runnable: with all sleepers awake whose time has come, it finds that no task can run,
  -- or returns one that can, has time left, and has the most among those that can.
  pub find_next_runnable-Chosen : Chosen s (find_next_runnable (suc (suc fuel)) s)
  find_next_runnable-Chosen = elim (Option-cases (pick 0 (map (woken s.ms) s.runqueue) none)) [
    | inl e ↦
        subst (Chosen s)
          (sym (
            find-none (suc fuel) s _
              (round s ok ∙ ap (λ c. (record s { runqueue = map (woken s.ms) s.runqueue }, c)) e)))
          (idle (pick-none 0 (map (woken s.ms) s.runqueue) none e).1)
    | inr ((i, m), e) ↦
        let l = map (woken s.ms) s.runqueue in
        let scanned = round s ok ∙ ap (λ c. (record s { runqueue = l }, c)) e in
        let (t, got, can, ticks, most) = pick-found l e in
        elim (ℕ_discrete m 0) [
          | yes z ↦
              subst (Chosen s)
                (sym (find-again (suc fuel) s (record s { runqueue = l }) i (rw z at scanned)))
                (second i t got can)
          | no time ↦
              subst (Chosen s) (sym (find-some (suc fuel) s _ i m scanned (omega arith)))
                (runs i t (inl refl) got can (omega (arith, ticks)) most)
        ]
  ]
