-- ===== src/Sched/Reap.antt =====
-- kernel/sched.c, `reaper`: what is left in the run queue.
use mathlib.Core.Option.{some-injective}
use minima.Base.{
  ℕ, zero, suc, ◌+◌, ◌≤◌, ◌≡◌, ◌≢◌, ◌⊎◌, refl, ap, ◌∙◌, false, none, some, List, [], ◌∷◌, arith,
  get_elem?, length, take, remove_at, All, ◌==◌, Bool-cases, Option-cases, inl, inr, if◌then◌else◌,
}
use minima.Base.Counts.{count}
use minima.Sched.{Task, Tasks, is_stopping, ts_runnable, ts_stopping}
use minima.Sched.Stop.{resume, resume_all, reap, reaper}

abbrev pub Goes : Task → Type 0
Goes t = is_stopping t.state ≡ false

resume-cases :
    (w ret : ℕ) (t : Task) (l : List Task) {l' : List Task}
    → resume w ret (t ∷ l) ≡ some l'
    → (l' ≡ record t { wait_retval = ret; state = ts_runnable } ∷ l)
      ⊎ ((r : List Task) × (resume w ret l ≡ some r) × (l' ≡ t ∷ r))
unfolding resume
resume-cases w ret t l e = elim (Option-cases (resume w ret l)) [
  | inl e' ↦ inl (ground (arith, e, e'))
  | inr (r, e') ↦ elim (Bool-cases (t.id == w)) [
    | inl same ↦ inl (ground (arith, e, same))
    | inr other ↦ inr (r, e', ground (arith, e, e', other))
  ]
]

resume-length :
    (w ret : ℕ) (l : List Task) {l' : List Task} → resume w ret l ≡ some l' → length l' ≡ length l
unfolding resume
resume-length w ret [] e = cc
resume-length w ret (t ∷ l) e = elim (resume-cases w ret t l e) [
  | inl e' ↦ rw e'
  | inr (r, e', e'') ↦ rw e'' (ap suc (resume-length w ret l e'))
]

resume-Goes :
    (w ret i : ℕ) (l : List Task) {l' : List Task}
    → resume w ret l ≡ some l'
    → All Goes (take i l)
    → All Goes (take i l')
unfolding resume
resume-Goes w ret i [] e h = cc
resume-Goes w ret zero (t ∷ l) e h = tt
resume-Goes w ret (suc i) (t ∷ l) e h = elim (resume-cases w ret t l e) [
  | inl e' ↦ rw e' (refl, h.1)
  | inr (r, e', e'') ↦ rw e'' (h.0, resume-Goes w ret i l e' h.1)
]

resume_all-Goes :
    (ws : List ℕ) (ret i : ℕ) (l : List Task) {l' : List Task}
    → resume_all ws ret l ≡ some l'
    → All Goes (take i l)
    → All Goes (take i l') × (length l' ≡ length l)
unfolding resume_all
resume_all-Goes [] ret i l e h = rw (← some-injective _ _ e) (h, refl)
resume_all-Goes (w ∷ ws) ret i l e h = elim (Option-cases (resume w ret l)) [
  | inl e' ↦ absurd (ground (arith, e, e'))
  | inr (r, e') ↦
      let (goes, len) =
        resume_all-Goes ws ret i r (ground (arith, e, e')) (resume-Goes w ret i l e' h) in
      (goes, len ∙ resume-length w ret l e')
]

take-remove_at : (l : List Task) (i : ℕ) → take i (remove_at l i) ≡ take i l
take-remove_at [] i = refl
take-remove_at (t ∷ l) zero = refl
take-remove_at (t ∷ l) (suc i) = ap (λ r. t ∷ r) (take-remove_at l i)

length-remove_at :
    (l : List Task) (i : ℕ) (t : Task)
    → get_elem? l i ≡ some t
    → suc (length (remove_at l i)) ≡ length l
length-remove_at [] i t e = cc
length-remove_at (u ∷ l) zero t e = refl
length-remove_at (u ∷ l) (suc i) t e = ap suc (length-remove_at l i t e)

take_next :
    (l : List Task) (i : ℕ) (t : Task)
    → get_elem? l i ≡ some t
    → Goes t
    → All Goes (take i l)
    → All Goes (take (suc i) l)
take_next [] i t e g h = cc
take_next (u ∷ l) zero t e g h = (ground (arith, e, g), tt)
take_next (u ∷ l) (suc i) t e g h = (h.0, take_next l i t e g h.1)

All-of_take : (l : List Task) (i : ℕ) → length l ≤ i → All Goes (take i l) → All Goes l
All-of_take [] i le h = tt
All-of_take (u ∷ l) zero le h = absurd (omega arith)
All-of_take (u ∷ l) (suc i) le h = (h.0, All-of_take l i (omega arith) h.1)

get-none : (l : List Task) (i : ℕ) → get_elem? l i ≡ none → length l ≤ i
get-none [] i e = omega arith
get-none (u ∷ l) zero e = cc
get-none (u ∷ l) (suc i) e = omega (arith, get-none l i e)

reap-Goes :
    (n i : ℕ) (s : Tasks) {s' : Tasks}
    → length s.runqueue ≤ i + n
    → All Goes (take i s.runqueue)
    → reap n i s ≡ some s'
    → All Goes s'.runqueue
unfolding reap
reap-Goes zero i s {s'} le h e =
    rw (← some-injective _ _ e) (All-of_take s.runqueue i (omega arith) h)
reap-Goes (suc n) i s {s'} le h e = elim (Option-cases (get_elem? s.runqueue i)) [
  | inl e' ↦
      rw (← some-injective _ _ (rw (e', reap) at e))
        (All-of_take s.runqueue i (get-none s.runqueue i e') h)
  | inr (t, e') ↦ elim (Bool-cases (is_stopping t.state)) [
    | inr goes ↦
        reap-Goes n (suc i) s {s' = s'} (omega arith) (take_next s.runqueue i t e' goes h)
          (rw (e', goes, reap) at e)
    | inl stops ↦ elim (Bool-cases (t.id == s.current)) [
      | inl self ↦ let e2 = rw (e', stops, self, reap) at e in cc
      | inr other ↦ elim (Option-cases (resume_all t.waiters t.ret (remove_at s.runqueue i))) [
        | inl e'' ↦ let e2 = rw (e', stops, other, e'', reap) at e in cc
        | inr (l, e'') ↦
            let (goes, len) =
              resume_all-Goes t.waiters t.ret i (remove_at s.runqueue i) e''
                (rw (take-remove_at s.runqueue i) h) in
            reap-Goes n i (record s { runqueue = l; freed = t.id ∷ s.freed }) {s' = s'}
              (omega (arith, len, length-remove_at s.runqueue i t e')) goes
              (rw (e', stops, other, e'', reap) at e)
      ]
    ]
  ]
]

-- The tasks of the run queue with an id, and the freed ones.
abbrev pub ids : List Task → List ℕ
ids [] = []
ids (t ∷ l) = t.id ∷ ids l

resume-ids :
    (w ret : ℕ) (l : List Task) {l' : List Task} → resume w ret l ≡ some l' → ids l' ≡ ids l
unfolding resume
resume-ids w ret [] e = cc
resume-ids w ret (t ∷ l) e = elim (resume-cases w ret t l e) [
  | inl e' ↦ rw e'
  | inr (r, e', e'') ↦ rw e'' (ap (λ is. t.id ∷ is) (resume-ids w ret l e'))
]

resume_all-ids :
    (ws : List ℕ) (ret : ℕ) (l : List Task) {l' : List Task}
    → resume_all ws ret l ≡ some l'
    → ids l' ≡ ids l
unfolding resume_all
resume_all-ids [] ret l e = rw (← some-injective _ _ e)
resume_all-ids (w ∷ ws) ret l e = elim (Option-cases (resume w ret l)) [
  | inl e' ↦ absurd (ground (arith, e, e'))
  | inr (r, e') ↦ resume_all-ids ws ret r (ground (arith, e, e')) ∙ resume-ids w ret l e'
]

count-remove_at :
    (x : ℕ) (l : List Task) (i : ℕ) (t : Task)
    → get_elem? l i ≡ some t
    → count x (ids (remove_at l i)) + (if x == t.id then 1 else 0) ≡ count x (ids l)
count-remove_at x [] i t e = cc
count-remove_at x (u ∷ l) zero t e =
    let same : u ≡ t = some-injective _ _ e in rw same (omega arith)
count-remove_at x (u ∷ l) (suc i) t e = omega (arith, count-remove_at x l i t e)

reap-count :
    (x n i : ℕ) (s : Tasks) {s' : Tasks}
    → reap n i s ≡ some s'
    → count x (ids s'.runqueue) + count x s'.freed ≡ count x (ids s.runqueue) + count x s.freed
unfolding reap
reap-count x zero i s {s'} e = rw (← some-injective _ _ e)
reap-count x (suc n) i s {s'} e = elim (Option-cases (get_elem? s.runqueue i)) [
  | inl e' ↦ rw (← some-injective _ _ (rw (e', reap) at e))
  | inr (t, e') ↦ elim (Bool-cases (is_stopping t.state)) [
    | inr goes ↦ reap-count x n (suc i) s {s' = s'} (rw (e', goes, reap) at e)
    | inl stops ↦ elim (Bool-cases (t.id == s.current)) [
      | inl self ↦ let e2 = rw (e', stops, self, reap) at e in cc
      | inr other ↦ elim (Option-cases (resume_all t.waiters t.ret (remove_at s.runqueue i))) [
        | inl e'' ↦ let e2 = rw (e', stops, other, e'', reap) at e in cc
        | inr (l, e'') ↦ omega (
          arith,
          reap-count x n i (record s { runqueue = l; freed = t.id ∷ s.freed }) {s' = s'}
              (rw (e', stops, other, e'', reap) at e),
          ap (count x) (resume_all-ids t.waiters t.ret (remove_at s.runqueue i) e''),
          count-remove_at x s.runqueue i t e',
        )
      ]
    ]
  ]
]

-- If a round of reaper gets through, no task in the run queue is stopping any more, and for every
-- id the tasks in the queue and the freed ones are together as many as before.
pub reaper-Goes :
    (s : Tasks) {s' : Tasks}
    → reaper s ≡ some s'
    → All Goes s'.runqueue
      × ((x : ℕ)
          → count x (ids s'.runqueue) + count x s'.freed
            ≡ count x (ids s.runqueue) + count x s.freed)
unfolding reaper
reaper-Goes s {s'} e = (
  reap-Goes (length s.runqueue) 0 s {s' = s'} (omega arith) tt e,
  λ x. reap-count x (length s.runqueue) 0 s {s' = s'} e,
)

-- Of two killed tasks in the run queue, where the second waits for the first and the first is not
-- the current one, reaper frees the first and makes the second runnable.
reaper-revives :
    (s : Tasks) (t w : Task)
    → s.runqueue ≡ t ∷ w ∷ []
    → t.waiters ≡ w.id ∷ []
    → t.state ≡ ts_stopping
    → w.state ≡ ts_stopping
    → t.id ≢ s.current
    → reaper s
      ≡ some (record s {
        runqueue = record w { wait_retval = t.ret; state = ts_runnable } ∷ [];
        freed = t.id ∷ s.freed;
      })
unfolding reaper reap resume_all resume
reaper-revives s t w q ws e f ne = ground (arith, q, ws, e, f)
