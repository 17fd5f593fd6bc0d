-- ===== src/Purge/Held.antt =====
-- kernel/mm/purge.c: a buffer that is held is not purged.
use minima.Base.{
  ◌-◌, arith, ℕ, ◌+◌, ◌≡◌, ◌≢◌, refl, sym, ap, ◌∙◌, false, List, [], ◌∷◌, ◌++◌, ◌==◌, if◌then◌else◌,
  All, Bool-cases, inl, inr, not-==→ne, add32, ne→not-==, ==_refl,
}
use minima.Purge.{
  Purgeable, done, sleeps, mem_purge, also, sweep_on, purge_loop, purgeable_purge, purgeable_get,
  put_entry, purgeable_put,
}
use minima.Purge.Sweeps.{mem_purge-IsPurged}

mem_purge_locked : (p : Purgeable) → p.lock ≡ 0 → mem_purge p ≡ sleeps
unfolding mem_purge
mem_purge_locked p e = rw e refl

-- A sweep for everything stops at a locked entry.
purge_loop_sleeps :
    (before : List Purgeable) (p : Purgeable) (after : List Purgeable)
    → All (λ p. p.lock ≢ 0) before
    → p.lock ≡ 0
    → (total : ℕ) → purge_loop 0 total (before ++ (p ∷ after)) ≡ sleeps
unfolding purge_loop
purge_loop_sleeps [] p after all locked total =
    ap (sweep_on 0 total after (λ t. purge_loop 0 t after)) (mem_purge_locked p locked)
purge_loop_sleeps (q ∷ before) p after all locked total =
    let l = before ++ (p ∷ after) in
    let (r, runs, is) = mem_purge-IsPurged q all.0 in
    ap (sweep_on 0 total l (λ t. purge_loop 0 t l)) runs
    ∙ ap (also r) (purge_loop_sleeps before p after all.1 locked (add32 total r.bytes))

put_entry_at :
    (ptr : ℕ) (before : List Purgeable) (p : Purgeable) (after : List Purgeable)
    → All (λ p. p.buf ≢ ptr) before
    → p.buf ≡ ptr
    → put_entry ptr (before ++ (p ∷ after)) ≡ before ++ (record p { lock = p.lock + 1 } ∷ after)
unfolding put_entry
put_entry_at ptr [] p after all here = rw (here, ==_refl ptr) refl
put_entry_at ptr (q ∷ before) p after all here =
    rw (ne→not-== q.buf ptr all.0) (ap (λ l. q ∷ l) (put_entry_at ptr before p after all.1 here))

not_null : (buf fresh : ℕ) → fresh ≢ 0 → (if buf == 0 then fresh else buf) ≢ 0
not_null buf fresh new = elim (Bool-cases (buf == 0)) [
  | inl e ↦ rw e new
  | inr e ↦ rw e (not-==→ne buf 0 e)
]

chosen_new : (buf fresh : ℕ) → buf ≡ 0 → (if buf == 0 then fresh else buf) ≡ fresh
chosen_new buf fresh e = rw e refl

chosen_old : (buf fresh : ℕ) → buf ≢ 0 → (if buf == 0 then fresh else buf) ≡ buf
chosen_old buf fresh ne = rw (ne→not-== buf 0 ne) refl

-- An entry with no buffer does not have the one that is chosen.
distinct :
    (buf fresh : ℕ) (l : List Purgeable)
    → fresh ≢ 0
    → All (λ q. (q.buf ≡ buf → q.buf ≡ 0) × (q.buf ≢ fresh)) l
    → All (λ q. q.buf ≢ (if buf == 0 then fresh else buf)) l
distinct buf fresh [] new all = tt
distinct buf fresh (q ∷ l) new all = (
  elim (Bool-cases (buf == 0)) [
    | inl e ↦ rw e all.0.1
    | inr e ↦ rw e (λ same. not-==→ne buf 0 e (sym same ∙ all.0.0 same))
  ],
  distinct buf fresh l new all.1,
)

-- purgeable_get of an entry that nobody holds says whether its buffer was purged, and returns that
-- buffer, or a new one if it was purged. As long as it is held, a purge of everything sleeps at it,
-- where nobody holds an entry before it, and a second purgeable_get sleeps as well. If no entry
-- before it has that buffer, purgeable_put ends this: the entry has its buffer, nobody holds it,
-- and the others are as they were.
pub purgeable_put-get :
    (fresh again s_list : ℕ) (before : List Purgeable) (p : Purgeable) (after : List Purgeable)
    → fresh ≢ 0
    → p.lock ≡ 1
    → s_list ≢ 0
    → All (λ p. p.lock ≢ 0) before
    → All (λ q. (q.buf ≡ p.buf → q.buf ≡ 0) × (q.buf ≢ fresh)) before
    → (ptr : ℕ) × (p' : Purgeable) × (purgeable_get fresh p ≡ done (p.buf == 0, ptr, p'))
      × ((p.buf ≡ 0 → ptr ≡ fresh) × (p.buf ≢ 0 → ptr ≡ p.buf))
      × (purgeable_get again p' ≡ sleeps)
      × (purgeable_purge 0 (record { s_purgeable = before ++ (p' ∷ after); s_list = s_list })
          ≡ sleeps)
      × (purgeable_put ptr (before ++ (p' ∷ after))
          ≡ done (before ++ (record p { buf = ptr } ∷ after)))
      × (ptr ≢ 0)
unfolding purgeable_get purgeable_purge purgeable_put
purgeable_put-get fresh again s_list before p after new free unlocked all others =
    let ptr = if p.buf == 0 then fresh else p.buf in
    let p' : Purgeable = record p { lock = p.lock - 1; buf = ptr } in
    let held : p'.lock ≡ 0 = omega (arith, free) in
    let freed : p'.lock + 1 ≡ p.lock = omega (arith, free) in
    let is_free : (p.lock == 0) ≡ false = ap (λ n. n == 0) free in
    let some_ptr : ptr ≢ 0 = not_null p.buf fresh new in
    let distinct : All (λ q. q.buf ≢ ptr) before = distinct p.buf fresh before new others in
    (
      ptr,
      p',
      rw is_free refl,
      (chosen_new p.buf fresh, chosen_old p.buf fresh),
      rw held refl,
      rw (ne→not-== s_list 0 unlocked) (purge_loop_sleeps before p' after all held 0),
      rw (ne→not-== ptr 0 some_ptr) (
          ap done (put_entry_at ptr before p' after distinct refl)
          ∙ ap (λ (n : ℕ). done (before ++ (record p { buf = ptr; lock = n } ∷ after))) freed),
      some_ptr,
    )
