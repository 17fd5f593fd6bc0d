-- ===== src/Vma/Best.antt =====
-- kernel/mm/vma.c, `find_space`: best fit, and no address lost or handed out twice.
use minima.Base.{
  ℕ, suc, ◌+◌, ◌≤◌, ◌<◌, ◌≡◌, ◌⊎◌, inl, inr, none, some, List, [], ◌∷◌, arith, sym, ap, ◌∙◌,
  get_elem?, All,
}
use minima.Vma.{Vma, Fit, take_first, take_smaller, scan_fit}

abbrev candidate_position : Fit → ℕ
candidate_position none = 0
candidate_position (some (i, a)) = i

-- The candidate after one round.
step_fit :
    (bytes i : ℕ) (a : Vma) (fit : Fit)
    → (take_smaller bytes (i, a) (take_first bytes (i, a) fit) ≡ fit)
      ⊎ (take_smaller bytes (i, a) (take_first bytes (i, a) fit) ≡ some (i, a)) × (bytes ≤ a.size)
unfolding take_smaller take_first
step_fit bytes i a none = ground arith
step_fit bytes i a (some (j, f)) = ground arith

step_fit_best :
    (bytes i : ℕ) (a : Vma) (fit : Fit) {k : ℕ} {f : Vma}
    → take_smaller bytes (i, a) (take_first bytes (i, a) fit) ≡ some (k, f)
    → (bytes ≤ a.size → f.size ≤ a.size)
unfolding take_smaller take_first
step_fit_best bytes i a none h = ground arith
step_fit_best bytes i a (some (j, g)) h = ground arith

step_fit_none :
    (bytes i : ℕ) (a : Vma) (fit : Fit)
    → take_smaller bytes (i, a) (take_first bytes (i, a) fit) ≡ none
    → (fit ≡ none) × (a.size < bytes)
unfolding take_smaller take_first
step_fit_none bytes i a none h = ground arith
step_fit_none bytes i a (some (j, g)) h = ground arith

-- The candidate at the end is the first one, or a range of the list that is large enough.
pub scan_fit_found :
    (bytes : ℕ) (l : List Vma) (i : ℕ) (fit : Fit) {k : ℕ} {f : Vma}
    → scan_fit bytes l i fit ≡ some (k, f)
    → (fit ≡ some (k, f)) ⊎ ((d : ℕ) × (k ≡ i + d) × (get_elem? l d ≡ some f) × (bytes ≤ f.size))
unfolding scan_fit
scan_fit_found bytes [] i fit h = inl h
scan_fit_found bytes (a ∷ l) i fit {k} {f} h = elim (scan_fit_found bytes l (suc i) _ h) [
  | inr (d, e, g, b) ↦ inr (suc d, omega arith, g, b)
  | inl same ↦ elim (step_fit bytes i a fit) [
    | inl old ↦ inl (sym old ∙ same)
    | inr (new, b) ↦
        let e : some (i, a) ≡ some (k, f) = sym new ∙ same in
        inr (0, omega (arith, ap candidate_position e), ground (arith, e), ground (arith, e))
  ]
]

-- No range that is large enough is smaller than the candidate.
pub scan_fit_best :
    (bytes : ℕ) (l : List Vma) (i : ℕ) (fit : Fit) {k : ℕ} {f : Vma}
    → scan_fit bytes l i fit ≡ some (k, f)
    → All (λ a. bytes ≤ a.size → f.size ≤ a.size) l
      × ((j : ℕ) (g : Vma) → fit ≡ some (j, g) → f.size ≤ g.size)
unfolding scan_fit take_smaller take_first
scan_fit_best bytes [] i fit h = (tt, λ j g e. ground arith)
scan_fit_best bytes (a ∷ l) i none {k} {f} h =
    let (rest, held) = scan_fit_best bytes l (suc i) _ h in
    ((λ b. ground (arith, held i a), rest), λ j g e. cc)
scan_fit_best bytes (a ∷ l) i (some (m, c)) {k} {f} h =
    let (rest, held) = scan_fit_best bytes l (suc i) _ h in
    ((λ b. ground (arith, held i a, held m c), rest), λ j g e. ground (arith, held i a, held m c))

pub scan_fit-none :
    (bytes : ℕ) (l : List Vma) (i : ℕ) (fit : Fit)
    → scan_fit bytes l i fit ≡ none
    → (fit ≡ none) × All (λ a. a.size < bytes) l
unfolding scan_fit
scan_fit-none bytes [] i fit h = (h, tt)
scan_fit-none bytes (a ∷ l) i fit h =
    let (new, rest) = scan_fit-none bytes l (suc i) _ h in
    let (old, small) = step_fit_none bytes i a fit new in (old, (small, rest))
