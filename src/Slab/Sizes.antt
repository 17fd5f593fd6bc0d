-- ===== src/Slab/Sizes.antt =====
-- kernel/mm/slab.c, `round_up_pow2` and `size_idx`: which chunk a request gets.
use native.Mathlib.Decide.{ℕ_discrete}
use native.Mathlib.Nat.{pow-suc, pow-le-pow_right}
use minima.Base.{
  ℕ, zero, suc, ◌+◌, ◌-◌, ◌*◌, ◌^◌, ◌≤◌, ◌<◌, ◌≡◌, refl, none, some, arith, ltb, ltb→lt, leb,
  leb→le, not-leb→lt, not-ltb→le, ap, Bool-cases, inl, inr, mul32, get_or, ◌⊎◌,
}
use minima.Slab.{chunk_sizes, size_of_pow, size_idx, pow_loop, round_up_pow2, pow_fuel}

-- The power of two that the loop stops at, when it starts at a power of two.
pub record Least (j v k : ℕ) : Type 0 where
  pub starts : j ≤ k
  pub word : k ≤ 31
  pub enough : v ≤ 2 ^ k
  pub least : (k ≡ j) ⊎ (2 ^ k < 2 * v)

pow_loop-Least :
    (fuel j v : ℕ)
    → j ≤ 31
    → 31 - j < fuel
    → v ≤ 2 ^ 31
    → (k : ℕ) × (pow_loop fuel (2 ^ j) v ≡ some (2 ^ k)) × Least j v k
unfolding pow_loop
pow_loop-Least zero j v top room fits = absurd (omega arith)
pow_loop-Least (suc fuel) j v top room fits = elim (Bool-cases (ltb (2 ^ j) v)) [
  | inr e ↦ (
    j,
    rw e,
    record { starts = omega arith; word = top; enough = not-ltb→le (2 ^ j) v e; least = inl refl },
  )
  | inl e ↦
      let less = ltb→lt (2 ^ j) v e in
      let below : j < 31 = elim (ℕ_discrete j 31) [
        | yes same ↦ absurd (omega (arith, less, ap (λ i. 2 ^ i) same))
        | no apart ↦ omega (arith, apart)
      ] in
      let step : mul32 (2 ^ j) 2 ≡ 2 ^ suc j = omega (
        arith,
        pow-suc 2 j,
        pow-le-pow_right {n = 2} (omega arith) {i = suc j} {j = 31} (omega arith),
      ) in
      let (k, e', is) = pow_loop-Least fuel (suc j) v below (omega arith) fits in
      (
        k,
        rw (e, step) e',
        record {
          starts = omega (arith, is.starts);
          word = is.word;
          enough = is.enough;
          least = inr (elim is.least [
            | inl same ↦ rw same (omega (arith, pow-suc 2 j))
            | inr small ↦ small
          ]);
        },
      )
]

chunk_pow : (d : ℕ) → d ≤ 9 → get_or chunk_sizes (size_of_pow (2 ^ (d + 3))) 0 ≡ 2 ^ (d + 3)
chunk_pow zero h = refl
chunk_pow (suc zero) h = refl
chunk_pow (suc (suc zero)) h = refl
chunk_pow (suc (suc (suc zero))) h = refl
chunk_pow (suc (suc (suc (suc zero)))) h = refl
chunk_pow (suc (suc (suc (suc (suc zero))))) h = refl
chunk_pow (suc (suc (suc (suc (suc (suc zero)))))) h = refl
chunk_pow (suc (suc (suc (suc (suc (suc (suc zero))))))) h = refl
chunk_pow (suc (suc (suc (suc (suc (suc (suc (suc zero)))))))) h = refl
chunk_pow (suc (suc (suc (suc (suc (suc (suc (suc (suc zero))))))))) h = refl
chunk_pow (suc (suc (suc (suc (suc (suc (suc (suc (suc (suc d)))))))))) h = absurd (omega arith)

-- For arguments from 1 to 2 ^ 31, 33 rounds are enough for round_up_pow2, and it returns a power of
-- two that is not smaller than the argument and less than twice as large.
pub round_up_pow2_lem :
    (v : ℕ)
    → 0 < v
    → v ≤ 2 ^ 31
    → (k : ℕ) × (round_up_pow2 pow_fuel v ≡ some (2 ^ k)) × (v ≤ 2 ^ k) × (2 ^ k < 2 * v)
unfolding round_up_pow2
round_up_pow2_lem v pos fits =
    let (k, e, is) = pow_loop-Least pow_fuel 0 v (omega arith) (omega arith) fits in
    (k, e, is.enough, elim is.least [ inl same ↦ rw same (omega arith) | inr small ↦ small ])

-- Beyond 2 ^ 31 the power wraps to 0 and the loop never ends.
pow_loop-zero : (fuel v : ℕ) → 0 < v → pow_loop fuel 0 v ≡ none
unfolding pow_loop
pow_loop-zero zero v pos = refl
pow_loop-zero (suc fuel) v pos = ground (arith, pow_loop-zero fuel v pos)

-- A request of 5 bytes up to a page is given a size whose chunks are at least as large as the
-- request and less than twice as large.
size_idx_lem :
    (bytes : ℕ)
    → 5 ≤ bytes
    → bytes ≤ 4096
    → (size : ℕ) × (size_idx bytes ≡ some size)
      × (bytes ≤ get_or chunk_sizes size 0)
      × (get_or chunk_sizes size 0 < 2 * bytes)
unfolding size_idx
size_idx_lem bytes lo hi =
    let (k, e, enough, least) = round_up_pow2_lem bytes (omega arith) (omega arith) in
    let at_least : 3 ≤ k = elim (Bool-cases (leb 3 k)) [
      | inl y ↦ leb→le _ _ y
      | inr n ↦ absurd (
          omega (
            arith,
            not-leb→lt _ _ n,
            pow-le-pow_right {n = 2} (omega arith) {i = k} {j = 2}
                (omega (arith, not-leb→lt _ _ n)),
          ))
    ] in
    let at_most : k ≤ 12 = elim (Bool-cases (leb k 12)) [
      | inl y ↦ leb→le _ _ y
      | inr n ↦ absurd (
          omega (
            arith,
            not-leb→lt _ _ n,
            pow-le-pow_right {n = 2} (omega arith) {i = 13} {j = k}
                (omega (arith, not-leb→lt _ _ n)),
          ))
    ] in
    let d : ℕ = k - 3 in
    let same : d + 3 ≡ k = omega arith in
    let chunk : get_or chunk_sizes (size_of_pow (2 ^ k)) 0 ≡ 2 ^ k =
      rw (← same) (chunk_pow d (omega arith)) in
    (
      size_of_pow (2 ^ k),
      rw (e, size_idx),
      omega (arith, enough, chunk),
      omega (arith, least, chunk),
    )

-- A request of at most 4 bytes is given the largest size, a chunk of 4096 bytes.
pub size_idx_small :
    (bytes : ℕ) → bytes ≤ 4 → (size_idx bytes ≡ some 9) × (get_or chunk_sizes 9 0 ≡ 4096)
unfolding size_idx round_up_pow2 pow_loop
size_idx_small zero h = (refl, refl)
size_idx_small (suc zero) h = (refl, refl)
size_idx_small (suc (suc zero)) h = (refl, refl)
size_idx_small (suc (suc (suc zero))) h = (refl, refl)
size_idx_small (suc (suc (suc (suc zero)))) h = (refl, refl)
size_idx_small (suc (suc (suc (suc (suc n))))) h = absurd (omega arith)
