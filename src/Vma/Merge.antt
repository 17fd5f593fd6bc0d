-- ===== src/Vma/Merge.antt =====
-- kernel/mm/vma.c, `vma_merge` and the second loop of `do_defrag`: on an ordered list no assertion
-- fails, and what comes out covers the same addresses with no two ranges that touch.
use minima.Base.{
  ℕ, zero, suc, ◌+◌, ◌≤◌, ◌<◌, ◌≡◌, ◌⊎◌, refl, ◌∙◌, inl, inr, true, false, Option, some, List, [],
  ◌∷◌, arith, length,
}
use mathlib.Core.Path.{subst}
use native.Mathlib.Decide.{ℕ_discrete}
use minima.Vma.{Vma, vma_merge, assert_invariants, join_left, join_right, merge_all, back_to_front}
use minima.Vma.Ranges.{IsRange, inside, cover, cover-back_to_front, Ordered}

module _ (a b : Vma) (ia : IsRange a) (ib : IsRange b) where
  asserted :
      (a.start + a.size ≤ b.start) ⊎ (b.start + b.size ≤ a.start) → assert_invariants a b ≡ true
  unfolding assert_invariants
  asserted (inl h) = ground (arith, ia.no_wrap, ib.no_wrap, ia.some_page, ib.some_page)
  asserted (inr h) = ground (arith, ia.no_wrap, ib.no_wrap, ia.some_page, ib.some_page)

  -- `vma_merge(a, b)` where `a` ends at `b`, where it begins at the end of `b`, and elsewhere
  merge_below :
      a.start + a.size ≡ b.start
      → vma_merge a b
        ≡ some (true, record a { size = 0 }, record { start = a.start; size = b.size + a.size })
  unfolding vma_merge
  merge_below h = ground (arith, asserted (inl (omega arith)), ia.no_wrap, ib.no_wrap)

  merge_above :
      b.start + b.size ≡ a.start
      → vma_merge a b
        ≡ some (
          true,
          record { start = a.start + a.size; size = 0 },
          record b { size = b.size + a.size },
        )
  unfolding vma_merge
  merge_above h = ground (arith, asserted (inr (omega arith)), ia.no_wrap, ib.no_wrap, ib.some_page)

  merge_apart :
      (a.start + a.size < b.start) ⊎ (b.start + b.size < a.start)
      → vma_merge a b ≡ some (false, a, b)
  unfolding vma_merge
  merge_apart (inl h) =
      ground (arith, asserted (inl (omega arith)), ia.no_wrap, ib.no_wrap, ib.some_page)
  merge_apart (inr h) =
      ground (arith, asserted (inr (omega arith)), ia.no_wrap, ib.no_wrap, ia.some_page)

-- The ranges already passed, the nearest first: each ends short of the next.
abbrev Spaced : ℕ → List Vma → Type 0
Spaced high [] = Unit
Spaced high (b ∷ l) = (b.start + b.size < high) × IsRange b × Spaced b.start l

-- The state of the loop: what is passed lies below what is to come.
abbrev Ready : List Vma → List Vma → Type 0
Ready [] behind = Ordered 0 behind
Ready (b ∷ before) behind = IsRange b × Spaced b.start before × Ordered (b.start + b.size) behind

-- In order, and no two ranges touch.
abbrev pub Gapped : ℕ → List Vma → Type 0
Gapped low [] = Unit
Gapped low (a ∷ l) = (low < a.start) × IsRange a × Gapped (a.start + a.size) l

abbrev pub IsMerged : List Vma → Type 0
IsMerged [] = Unit
IsMerged (a ∷ l) = IsRange a × Gapped (a.start + a.size) l

back_to_front-IsMerged :
    (b : Vma) (before l : List Vma)
    → IsRange b
    → Spaced b.start before
    → Gapped (b.start + b.size) l
    → IsMerged (back_to_front before (b ∷ l))
back_to_front-IsMerged b [] l is s g = (is, g)
back_to_front-IsMerged b (c ∷ before) l is s g =
    back_to_front-IsMerged c before (b ∷ l) s.1 s.2 (s.0, is, g)

-- One round at `a`: it joins the range before it, joins the range behind it, or stays.
abbrev covers : ℕ → List Vma → List Vma → ℕ
covers x before behind = cover x before + cover x behind

data Round (n : ℕ) (before : List Vma) (a : Vma) (behind : List Vma) : Type 0 where
  goes_on :
      (before' behind' : List Vma)
      → merge_all (suc n) before (a ∷ behind) ≡ merge_all n before' behind'
      → Ready before' behind'
      → length behind' ≡ length behind
      → ((x : ℕ) → covers x before' behind' ≡ covers x before (a ∷ behind))
      → Round n before a behind

-- `a` does not touch what is before it.
abbrev Free : List Vma → Vma → Type 0
Free [] a = Unit
Free (b ∷ before) a = b.start + b.size < a.start

push-Ready :
    (before : List Vma) (a : Vma) (behind : List Vma)
    → Ready before (a ∷ behind)
    → Free before a
    → Ready (a ∷ before) behind
push-Ready [] a behind r f = (r.1, tt, r.2)
push-Ready (b ∷ before) a behind r f = (r.2.1, (f, r.0, r.1), r.2.2)

-- Two ranges that touch, as one.
module _ (lo hi : Vma) (n : ℕ) (il : IsRange lo) (ih : IsRange hi)
    (touch : lo.start + lo.size ≡ hi.start) (e : n ≡ lo.size + hi.size) where
  joined_range : IsRange (record { start = lo.start; size = n })
  joined_range = omega (arith, il.aligned, il.whole, ih.whole, il.some_page, ih.no_wrap)

  joined_inside :
      (x : ℕ) → inside x (record { start = lo.start; size = n }) ≡ inside x lo + inside x hi
  joined_inside x = ground arith

  joined_end : hi.start + hi.size ≡ lo.start + n
  joined_end = omega arith

replace_next :
    (before : List Vma) (a a' : Vma) (l l' : List Vma)
    → Ready before (a ∷ l)
    → a'.start ≡ a.start
    → IsRange a'
    → Ordered (a'.start + a'.size) l'
    → Ready before (a' ∷ l')
replace_next [] a a' l l' r e is o = (omega arith, is, o)
replace_next (b ∷ before) a a' l l' r e is o = (r.0, r.1, (omega (arith, r.2.0, e), is, o))

left-Free :
    (before : List Vma) (a : Vma) (behind : List Vma)
    → Ready before (a ∷ behind)
    → Free before a
    → (l : List Vma) × (join_left before a ≡ some (false, l))
unfolding join_left
left-Free [] a behind r f = ([], refl)
left-Free (b ∷ before) a behind r f =
    (b ∷ before, rw (merge_apart a b r.2.1 r.0 (inr f), join_left))

-- the round without a range before `a` that it touches
Round-right :
    (n : ℕ) (before : List Vma) (a : Vma) (behind : List Vma)
    → Ready before (a ∷ behind)
    → Free before a
    → IsRange a
    → Ordered (a.start + a.size) behind
    → Round n before a behind
unfolding merge_all join_right
Round-right n before a [] r f is o =
    let (l, e) = left-Free before a [] r f in
    goes_on (a ∷ before) [] (rw (e, merge_all)) (push-Ready before a [] r f) refl (λ x. omega arith)
Round-right n before a (c ∷ behind) r f is o =
    let (l, e) = left-Free before a (c ∷ behind) r f in
    elim (ℕ_discrete (a.start + a.size) c.start) [
      | yes touch ↦
          goes_on before (record { start = a.start; size = c.size + a.size } ∷ behind)
            (rw (e, merge_all) (rw (merge_below a c is o.1 touch, join_right)))
            (replace_next before a _ (c ∷ behind) behind r refl
              (joined_range a c (c.size + a.size) is o.1 touch (omega arith))
              (subst (λ m. Ordered m behind)
                (joined_end a c (c.size + a.size) is o.1 touch (omega arith)) o.2))
            refl
            (λ x. omega (arith, joined_inside a c (c.size + a.size) is o.1 touch (omega arith) x))
      | no apart ↦
          goes_on (a ∷ before) (c ∷ behind)
            (rw (e, merge_all) (rw (merge_apart a c is o.1 (inl (omega (arith, o.0))), join_right)))
            (push-Ready before a (c ∷ behind) r f) refl (λ x. omega arith)
    ]

Round-left :
    (n : ℕ) (b : Vma) (before : List Vma) (a : Vma) (behind : List Vma)
    → Ready (b ∷ before) (a ∷ behind)
    → b.start + b.size ≡ a.start
    → Round n (b ∷ before) a behind
unfolding merge_all join_left
Round-left n b before a behind r touch =
    goes_on (record b { size = b.size + a.size } ∷ before) behind
      (rw (merge_above a b r.2.1 r.0 touch, join_left, merge_all))
      (
        joined_range b a (b.size + a.size) r.0 r.2.1 touch refl,
        r.1,
        subst (λ m. Ordered m behind) (joined_end b a (b.size + a.size) r.0 r.2.1 touch refl) r.2.2,
      )
      refl (λ x. omega (arith, joined_inside b a (b.size + a.size) r.0 r.2.1 touch refl x))

round :
    (n : ℕ) (before : List Vma) (a : Vma) (behind : List Vma)
    → Ready before (a ∷ behind)
    → Round n before a behind
round n [] a behind r = Round-right n [] a behind r tt r.1 r.2
round n (b ∷ before) a behind r = elim (ℕ_discrete (b.start + b.size) a.start) [
  | yes touch ↦ Round-left n b before a behind r touch
  | no apart ↦ Round-right n (b ∷ before) a behind r (omega (arith, r.2.0)) r.2.1 r.2.2
]

-- The whole loop, with as much fuel as there are ranges to come.
abbrev pub Merges : List Vma → List Vma → Option (List Vma) → Type 0
Merges before behind out =
    (l : List Vma) × (out ≡ some l) × IsMerged l × ((x : ℕ) → cover x l ≡ covers x before behind)

finish : (before : List Vma) → Ready before [] → Merges before [] (some (back_to_front before []))
finish [] r = ([], refl, tt, λ x. refl)
finish (b ∷ before) r = (
  back_to_front before (b ∷ []),
  refl,
  back_to_front-IsMerged b before [] r.0 r.1 tt,
  λ x. omega (arith, cover-back_to_front x before (b ∷ [])),
)

pub merge_all-Merges :
    (n : ℕ) (before behind : List Vma)
    → length behind ≤ n
    → Ready before behind
    → Merges before behind (merge_all n before behind)
unfolding merge_all
merge_all-Merges zero before [] h r = finish before r
merge_all-Merges zero before (a ∷ behind) h r = absurd (omega arith)
merge_all-Merges (suc n) before [] h r = finish before r
merge_all-Merges (suc n) before (a ∷ behind) h r = elim (round n before a behind r) [
  | goes_on before' behind' e r' same c ↦
      let (l, e', is, c') = merge_all-Merges n before' behind' (omega (arith, h, same)) r' in
      (l, e ∙ e', is, λ x. c' x ∙ c x)
]
