-- ===== src/Vma/Defrag.antt =====
-- kernel/mm/vma.c, `do_defrag`: the free list and the queue become one ordered free list.
use minima.Base.{ℕ, ◌+◌, ◌≤◌, ◌≡◌, refl, some, [], arith, length, All}
use minima.Vma.{Space, do_defrag}
use minima.Vma.Ranges.{IsRange, cover, Ordered}
use minima.Vma.Insert.{insert_all-Ordered}
use minima.Vma.Merge.{IsMerged, merge_all-Merges}

-- On an ordered free list and a queue of page ranges that share no address, do_defrag fails no
-- assertion and never compares overlapping ranges; the queue becomes empty, the ranges in use stay,
-- and the new free list covers exactly the addresses of the old one and of the queue, in order,
-- with no two ranges that touch.
pub do_defrag_lem :
    (s : Space)
    → Ordered 0 s.freelist
    → All IsRange s.queue
    → ((x : ℕ) → cover x s.queue + cover x s.freelist ≤ 1)
    → (s' : Space) × (do_defrag s ≡ some s')
      × IsMerged s'.freelist
      × ((x : ℕ) → cover x s'.freelist ≡ cover x s.queue + cover x s.freelist)
      × (s'.queue ≡ [])
      × (s'.in_use ≡ s.in_use)
unfolding do_defrag
do_defrag_lem s o is apart =
    let (free, e, o', c) = insert_all-Ordered s.queue s.freelist is o apart in
    let (merged, e', is', c') = merge_all-Merges (length free) [] free (omega arith) o' in
    (
      record s { freelist = merged; queue = [] },
      rw (e, do_defrag) (rw (e', do_defrag)),
      is',
      λ x. omega (arith, c x, c' x),
      refl,
      refl,
    )
