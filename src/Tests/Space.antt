-- ===== src/Tests/Space.antt =====
-- kernel/mm/vma.c at concrete inputs: three free ranges, and two ranges in the queue.
use minima.Base.{ℕ, ◌+◌, ◌*◌, ◌≤◌, ◌<◌, ◌≡◌, ◌↔◌, refl, none, some, [], ◌∷◌, arith, page_size, All}
use minima.Vma.{Vma, Space, do_defrag, find_space, scan_fit, take_fit, vma_split}
use minima.Vma.Ranges.{IsRange, cover, Ordered}
use minima.Vma.Merge.{IsMerged}
use minima.Vma.Find.{Found, find_space-Found, find_space-IsBest_fit, find_space-none, IsBest}
use minima.Vma.Defrag.{do_defrag_lem}

abbrev pages_at : ℕ → ℕ → Vma
pages_at p n = record { start = p * page_size; size = n * page_size }

abbrev space : Space
space = record {
  freelist = pages_at 1 4 ∷ pages_at 8 2 ∷ pages_at 12 3 ∷ [];
  in_use = pages_at 11 1 ∷ [];
  queue = pages_at 5 3 ∷ pages_at 10 1 ∷ [];
}

abbrev after : Space
after = record {
  freelist = pages_at 1 4 ∷ pages_at 9 1 ∷ pages_at 12 3 ∷ [];
  in_use = pages_at 11 1 ∷ pages_at 8 1 ∷ [];
  queue = pages_at 5 3 ∷ pages_at 10 1 ∷ [];
}

abbrev range : (p n : ℕ) → 0 < n → p + n < 1024 → IsRange (pages_at p n)
range p n pos hi = record {
  aligned = omega arith;
  whole = omega arith;
  some_page = omega arith;
  no_wrap = omega arith;
}

space-Ordered : Ordered 0 space.freelist
space-Ordered = (
  omega arith,
  range 1 4 (omega arith) (omega arith),
  (
    omega arith,
    range 8 2 (omega arith) (omega arith),
    (omega arith, range 12 3 (omega arith) (omega arith), tt),
  ),
)

queue_ranges : All IsRange space.queue
queue_ranges = (range 5 3 (omega arith) (omega arith), (range 10 1 (omega arith) (omega arith), tt))

apart : (x : ℕ) → cover x space.queue + cover x space.freelist ≤ 1
apart x = ground arith

find_after : find_space space 1 ≡ some (pages_at 8 1, after)
unfolding find_space scan_fit take_fit vma_split
find_after = refl

do_defrag_example :
    (s' : Space) × (do_defrag space ≡ some s')
    × IsMerged s'.freelist
    × ((x : ℕ) → cover x s'.freelist ≡ cover x space.queue + cover x space.freelist)
    × (s'.queue ≡ [])
    × (s'.in_use ≡ space.in_use)
do_defrag_example = do_defrag_lem space space-Ordered queue_ranges apart

find_space-Found_example : Found 0 space 1 (pages_at 8 1) after
find_space-Found_example =
    find_space-Found 0 space 1 space-Ordered (omega arith) (omega arith) find_after

find_space-IsBest_fit_example : (k : ℕ) × (f : Vma) × IsBest space 1 k f × (8 * page_size ≡ f.start)
find_space-IsBest_fit_example = find_space-IsBest_fit space 1 (omega arith) find_after

find_space-none_example :
    (find_space space 5 ≡ none) ↔ All (λ a. a.size < 5 * page_size) space.freelist
find_space-none_example = find_space-none space 5 (omega arith)
