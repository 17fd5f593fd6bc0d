-- ===== src/Utils/Paths.antt =====
-- kernel/utils.c: `dirname` and `basename` cut a path at its last slash.
use minima.Base.{
  ℕ, zero, suc, ◌+◌, ◌≤◌, ◌<◌, ◌≡◌, refl, ap, ◌∙◌, false, not, ◌&&◌, none, some, Option, List, [],
  ◌∷◌, ◌++◌, arith, take, length, All, ◌==◌, if◌then◌else◌, Bool-cases, inl, inr, ◌⊎◌,
}
use minima.Utils.{slash, is_slash, dir_loop, dir_of, dirname, base_loop, basename, or_slash}

abbrev pub NoSlash : ℕ → Type 0
NoSlash c = (c == slash) ≡ false

base_loop-NoSlash : (b last : List ℕ) → All NoSlash b → base_loop b last ≡ last
unfolding base_loop
base_loop-NoSlash [] last h = refl
base_loop-NoSlash (c ∷ b) last h = rw h.0 (base_loop-NoSlash b last h.1)

base_loop-slash : (d b last : List ℕ) → All NoSlash b → base_loop (d ++ (slash ∷ b)) last ≡ b
unfolding base_loop
base_loop-slash [] b last h = base_loop-NoSlash b b h
base_loop-slash (c ∷ d) b last h =
    base_loop-slash d b (if c == slash then d ++ (slash ∷ b) else last) h

is_slash-NoSlash : (b : List ℕ) → All NoSlash b → is_slash b ≡ false
is_slash-NoSlash [] h = refl
is_slash-NoSlash (c ∷ b) h = h.0

dir_loop-NoSlash :
    (b : List ℕ) (i : ℕ) (last : Option ℕ) (others : ℕ)
    → All NoSlash b
    → dir_loop b i last others ≡ (last, others + length b)
unfolding dir_loop
dir_loop-NoSlash [] i last others h = ap (λ n. (last, n)) (omega arith)
dir_loop-NoSlash (c ∷ b) i last others h =
    rw h.0 (dir_loop-NoSlash b (suc i) last (suc others) h.1 ∙ ap (λ n. (last, n)) (omega arith))

-- The last slash is found, and the bytes before it are not all slashes that end a run.
dir_loop-slash :
    (d b : List ℕ) (i : ℕ) (last : Option ℕ) (others : ℕ)
    → All NoSlash b
    → (n : ℕ) × (dir_loop (d ++ (slash ∷ b)) i last others ≡ (some (i + length d), n))
      × (others ≤ n)
      × ((d ≡ []) ⊎ (others < n))
unfolding dir_loop
dir_loop-slash [] b i last others h = (
  others + length b,
  rw (is_slash-NoSlash b h) (
      dir_loop-NoSlash b (suc i) (some i) others h
      ∙ ap (λ k. (some k, others + length b)) (omega arith)),
  omega arith,
  inl refl,
)
dir_loop-slash (c ∷ d) b i last others h =
    let step : suc i + length d ≡ i + suc (length d) = omega arith in
    elim (Bool-cases (c == slash && not (is_slash (d ++ (slash ∷ b))))) [
      | inl ends ↦
          let (n, e, le, more) = dir_loop-slash d b (suc i) (some i) others h in
          (
            n,
            rw ends (e ∙ ap (λ k. (some k, n)) step),
            le,
            inr (elim more [
              | inl none_left ↦ let e2 = rw none_left at ends in absurd (ground (arith, e2))
              | inr lt ↦ lt
            ]),
          )
      | inr goes ↦
          let (n, e, le, more) = dir_loop-slash d b (suc i) last (suc others) h in
          (n, rw goes (e ∙ ap (λ k. (some k, n)) step), omega (arith, le), inr (omega (arith, le)))
    ]

take-length : (d l : List ℕ) → take (length d) (d ++ l) ≡ d
take-length [] l = refl
take-length (c ∷ d) l = ap (λ r. c ∷ r) (take-length d l)

dir_of-some : (path : List ℕ) (i n : ℕ) → 0 < n → dir_of path (some (suc i)) n ≡ take (suc i) path
dir_of-some path i zero pos = absurd (omega arith)
dir_of-some path i (suc n) pos = refl

-- For a path cut at its last slash, where that is not the first byte, dirname is what stands before
-- the slash, and basename what stands behind it, or a slash if that is nothing.
dirname-basename :
    (c : ℕ) (d b : List ℕ)
    → All NoSlash b
    → (dirname (some ((c ∷ d) ++ (slash ∷ b))) ≡ c ∷ d)
      × (basename ((c ∷ d) ++ (slash ∷ b)) ≡ or_slash b)
unfolding dirname basename
dirname-basename c d b h =
    let (n, e, le, more) = dir_loop-slash (c ∷ d) b 0 none 0 h in
    let path = (c ∷ d) ++ (slash ∷ b) in
    let zero_add : 0 + length (c ∷ d) ≡ suc (length d) = omega arith in
    (
      ap (λ (r : Option ℕ × ℕ). dir_of path r.0 r.1) e
          ∙ ap (λ k. dir_of path (some k) n) zero_add
          ∙ dir_of-some path (length d) n (elim more [ inl never ↦ cc | inr pos ↦ pos ])
          ∙ take-length (c ∷ d) (slash ∷ b),
      ap or_slash (base_loop-slash (c ∷ d) b ((c ∷ d) ++ (slash ∷ b)) h),
    )
