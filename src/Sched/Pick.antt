-- ===== src/Sched/Pick.antt =====
-- kernel/sched.c, one round of `find_next_runnable` when no task has overflown its stack: sleepers
-- whose time has come wake, and the runnable task with the most ticks is found.
use minima.Base.{
  ℕ, suc, ◌+◌, ◌≤◌, ◌≡◌, refl, ap, sym, ◌∙◌, true, false, ◌&&◌, none, some, List, [], ◌∷◌, ◌++◌,
  map, arith, leb, if◌then◌else◌, get_elem?, set, length, All, ◌⊎◌, inl, inr,
}
use minima.Sched.{
  Task, Tasks, is_runnable, is_sleeping, ts_runnable, Choice, exceeds, consider, scan,
  update_task_state, stop_overflow, wake_sleeper,
}

abbrev pub InStack : Task → Type 0
InStack t = t.redzone_top ≤ t.k_esp

-- The task after its time to sleep may have run out.
abbrev pub woken : ℕ → Task → Task
woken ms t =
    if is_sleeping t.state && leb t.sleep_till ms then record t { state = ts_runnable } else t

abbrev pub pick : ℕ → List Task → Choice → Choice
pick i [] c = c
pick i (t ∷ l) c =
    pick (suc i) l (if is_runnable t.state && exceeds t.ticks c then some (i, t.ticks) else c)

get-middle :
    (front : List Task) (t : Task) (l : List Task)
    → get_elem? (front ++ (t ∷ l)) (length front) ≡ some t
get-middle [] t l = refl
get-middle (x ∷ front) t l = get-middle front t l

set-middle :
    (front : List Task) (t u : Task) (l : List Task)
    → set (front ++ (t ∷ l)) (length front) u ≡ front ++ (u ∷ l)
set-middle [] t u l = refl
set-middle (x ∷ front) t u l = ap (λ r. x ∷ r) (set-middle front t u l)

stop_overflow-InStack :
    (s : Tasks) (front : List Task) (t : Task) (l : List Task)
    → s.runqueue ≡ front ++ (t ∷ l)
    → InStack t
    → stop_overflow (length front) s ≡ s
unfolding stop_overflow
stop_overflow-InStack s front t l e ok = ground (arith, e, get-middle front t l)

wake_sleeper-woken :
    (s : Tasks) (front : List Task) (t : Task) (l : List Task)
    → s.runqueue ≡ front ++ (t ∷ l)
    → wake_sleeper (length front) s ≡ record s { runqueue = front ++ (woken s.ms t ∷ l) }
unfolding wake_sleeper
wake_sleeper-woken s front t l e =
    ground (arith, e, get-middle front t l, set-middle front t (record t { state = ts_runnable }) l)

append_one :
    (front : List Task) (t : Task) (l : List Task) → (front ++ (t ∷ [])) ++ l ≡ front ++ (t ∷ l)
append_one [] t l = refl
append_one (x ∷ front) t l = ap (λ r. x ∷ r) (append_one front t l)

length-append_one : (front : List Task) (t : Task) → length (front ++ (t ∷ [])) ≡ suc (length front)
length-append_one [] t = refl
length-append_one (x ∷ front) t = ap suc (length-append_one front t)

consider-middle :
    (front : List Task) (t : Task) (l : List Task) (c : Choice)
    → consider (length front) (front ++ (t ∷ l)) c
      ≡ (if is_runnable t.state && exceeds t.ticks c then some (length front, t.ticks) else c)
unfolding consider
consider-middle front t l c = rw (get-middle front t l, consider)

update-woken :
    (s : Tasks) (front : List Task) (t : Task) (l : List Task)
    → s.runqueue ≡ front ++ (t ∷ l)
    → InStack t
    → update_task_state (length front) s ≡ record s { runqueue = front ++ (woken s.ms t ∷ l) }
unfolding update_task_state
update-woken s front t l e ok =
    ap (wake_sleeper (length front)) (stop_overflow-InStack s front t l e ok)
    ∙ wake_sleeper-woken s front t l e

pub scan-pick :
    (s : Tasks) (front l : List Task) (c : Choice)
    → s.runqueue ≡ front ++ l
    → All InStack l
    → scan (length l) (length front) s c ≡ (
      record s { runqueue = front ++ map (woken s.ms) l },
      pick (length front) (map (woken s.ms) l) c,
    )
unfolding scan
scan-pick s front [] c e ok = ground (arith, e)
scan-pick s front (t ∷ l) c e ok =
    let t' = woken s.ms t in
    let s' : Tasks = record s { runqueue = front ++ (t' ∷ l) } in
    let c' =
      if is_runnable t'.state && exceeds t'.ticks c then some (length front, t'.ticks) else c in
    let rest = scan-pick s' (front ++ (t' ∷ [])) l c' (sym (append_one front t' l)) ok.1 in
    rw (update-woken s front t l e ok.0, consider-middle front t' l c, scan)
      (rw (length-append_one front t', append_one front t' (map (woken s.ms) l)) at rest)

-- What the choice says of the tasks looked at.
pub pick-none :
    (i : ℕ) (l : List Task) (c : Choice)
    → pick i l c ≡ none
    → (c ≡ none) × All (λ t. is_runnable t.state ≡ false) l
pick-none i [] c e = (e, tt)
pick-none i (t ∷ l) none e =
    let (new, rest) = pick-none (suc i) l _ e in (refl, (ground arith, rest))
pick-none i (t ∷ l) (some (a, b)) e =
    let (new, rest) = pick-none (suc i) l _ e in absurd (ground arith)

pick_step :
    (i : ℕ) (t : Task) (c : Choice)
    → ((if is_runnable t.state && exceeds t.ticks c then some (i, t.ticks) else c) ≡ c)
      ⊎ ((if is_runnable t.state && exceeds t.ticks c then some (i, t.ticks) else c)
          ≡ some (i, t.ticks))
        × (is_runnable t.state ≡ true)
pick_step i t c = ground arith

abbrev ticks_of : Choice → ℕ
ticks_of none = 0
ticks_of (some (i, m)) = m

abbrev place_of : Choice → ℕ
place_of none = 0
place_of (some (i, m)) = i

pub pick-some :
    (i : ℕ) (l : List Task) (c : Choice) {j m : ℕ}
    → pick i l c ≡ some (j, m)
    → (c ≡ some (j, m))
      ⊎ ((d : ℕ) × (t : Task) × (j ≡ i + d)
          × (get_elem? l d ≡ some t)
          × (is_runnable t.state ≡ true)
          × (t.ticks ≡ m))
pick-some i [] c e = inl e
pick-some i (t ∷ l) c {j} {m} e = elim (pick-some (suc i) l _ e) [
  | inr (d, u, at_d, got, runs, ticks) ↦ inr (suc d, u, omega arith, got, runs, ticks)
  | inl same ↦ elim (pick_step i t c) [
    | inl kept ↦ inl (sym kept ∙ same)
    | inr (new, runs) ↦
        let e' : some (i, t.ticks) ≡ some (j, m) = sym new ∙ same in
        inr (0, t, omega (arith, ap place_of e'), refl, runs, ap ticks_of e')
  ]
]

abbrev pub NoMore : ℕ → Task → Type 0
NoMore m t = is_runnable t.state ≡ true → t.ticks ≤ m

pub pick-most :
    (i : ℕ) (l : List Task) (c : Choice) {j m : ℕ}
    → pick i l c ≡ some (j, m)
    → All (NoMore m) l × ((k n : ℕ) → c ≡ some (k, n) → n ≤ m)
pick-most i [] c e = (tt, λ k n e'. ground arith)
pick-most i (t ∷ l) none e =
    let (rest, held) = pick-most (suc i) l _ e in
    ((λ runs. ground (arith, held i t.ticks, runs), rest), λ k n e'. cc)
pick-most i (t ∷ l) (some (a, b)) e =
    let (rest, held) = pick-most (suc i) l _ e in
    (
      (λ runs. ground (arith, held i t.ticks, held a b, runs), rest),
      λ k n e'. ground (arith, held i t.ticks, held a b),
    )
