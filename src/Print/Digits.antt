-- ===== src/Print/Digits.antt =====
-- kernel/kprintf.c, `pru32`: the digits that it prints have the value of the number.
use native.Mathlib.Decide.{ℕ_discrete}
use native.Mathlib.Nat.{mul_assoc, pow-suc}
use minima.Base.{
  ℕ, zero, suc, ◌+◌, ◌-◌, ◌*◌, ◌/◌, ◌%◌, ◌^◌, ◌≤◌, ◌<◌, ◌≡◌, ◌⊎◌, inl, inr, refl, ap, sym, ◌∙◌,
  true, some, List, [], ◌∷◌, arith, leb, length, All, Bool-cases, leb→le, not-leb→lt,
}
use minima.Print.{places_loop, places, fill, pru32, max_places, is_num}

-- the value of a text of digits, behind digits of the value `a`
abbrev pub value : ℕ → List ℕ → ℕ
value a [] = a
value a (c ∷ l) = value (a * 10 + (c - 48)) l

-- The number of places that the loop adds: enough for the number, and no more.
pub record Places (n e : ℕ) : Type 0 where
  pub enough : n < 10 ^ suc e
  pub least : (e ≡ 0) ⊎ (10 ^ e ≤ n)

places_loop-Places :
    (fuel count n : ℕ)
    → n < 10 ^ fuel
    → 0 < fuel
    → (e : ℕ) × (places_loop fuel count n ≡ some (count + e)) × Places n e × (e < fuel)
unfolding places_loop
places_loop-Places zero count n fits pos = absurd (omega arith)
places_loop-Places (suc fuel) count n fits pos = elim (Bool-cases (leb 10 n)) [
  | inr e ↦ (
    0,
    rw e (ap some (omega arith)),
    record { enough = omega (arith, not-leb→lt _ _ e); least = inl refl },
    omega arith,
  )
  | inl e ↦
      let ten = leb→le 10 n e in
      let small : n / 10 < 10 ^ fuel = omega (arith, pow-suc 10 fuel) in
      let more : 0 < fuel = elim (ℕ_discrete fuel 0) [
        | yes z ↦ absurd (omega (arith, ten, ap (λ i. 10 ^ i) z, pow-suc 10 fuel))
        | no ne ↦ omega (arith, ne)
      ] in
      let (d, e', is, lt) = places_loop-Places fuel (suc count) (n / 10) small more in
      (
        suc d,
        rw e (e' ∙ ap some (omega arith)),
        record {
          enough = omega (arith, is.enough, pow-suc 10 (suc d));
          least = inr (elim is.least [
            | inl z ↦ omega (arith, ten, ap (λ i. 10 ^ i) z, pow-suc 10 d)
            | inr le ↦ omega (arith, le, pow-suc 10 d)
          ]);
        },
        omega (arith, lt),
      )
]

value-fill :
    (n num a : ℕ) (buf : List ℕ)
    → num < 10 ^ n
    → value a (fill n num buf) ≡ value (a * 10 ^ n + num) buf
unfolding fill
value-fill zero num a buf fits = ap (λ v. value v buf) (omega arith)
value-fill (suc n) num a buf fits =
    let e = value-fill n (num / 10) a ((num % 10 + 48) ∷ buf) (omega (arith, pow-suc 10 n)) in
    e
    ∙ ap (λ v. value v buf)
        (omega (arith, ap (λ q. a * q) (pow-suc 10 n) ∙ sym (mul_assoc a (10 ^ n) 10)))

length-fill : (n num : ℕ) (buf : List ℕ) → length (fill n num buf) ≡ n + length buf
unfolding fill
length-fill zero num buf = omega arith
length-fill (suc n) num buf = omega (arith, length-fill n (num / 10) ((num % 10 + 48) ∷ buf))

abbrev pub IsDigit : ℕ → Type 0
IsDigit c = is_num c ≡ true

fill-IsDigit : (n num : ℕ) (buf : List ℕ) → All IsDigit buf → All IsDigit (fill n num buf)
unfolding fill is_num
fill-IsDigit zero num buf h = h
fill-IsDigit (suc n) num buf h = fill-IsDigit n (num / 10) ((num % 10 + 48) ∷ buf) (ground arith, h)

-- A text of digits that stands for a number, with no zeros in front.
pub record IsDecimal (num : ℕ) (l : List ℕ) : Type 0 where
  pub digits : All IsDigit l
  pub worth : value 0 l ≡ num
  pub some_digit : 0 < length l
  pub room : length l ≤ max_places
  pub shortest : (length l ≡ 1) ⊎ (10 ^ (length l - 1) ≤ num)

-- pru32 prints every 32-bit number as one to ten digits that have its value, without zeros in
-- front.
pub pru32-IsDecimal :
    (num : ℕ) → num < 2 ^ 32 → (l : List ℕ) × (pru32 num ≡ some l) × IsDecimal num l
unfolding pru32 places
pru32-IsDecimal num fits =
    let (e, eq, is, lt) = places_loop-Places max_places 1 num (omega arith) (omega arith) in
    let len : length (fill (1 + e) num []) ≡ suc e = omega (arith, length-fill (1 + e) num []) in
    let same : 1 + e ≡ suc e = omega arith in
    let last : length (fill (1 + e) num []) - 1 ≡ e = omega (arith, len) in
    (
      fill (1 + e) num [],
      rw (eq, pru32),
      record {
        digits = fill-IsDigit (1 + e) num [] tt;
        worth = value-fill (1 + e) num 0 [] (rw same is.enough) ∙ omega arith;
        some_digit = omega (arith, len);
        room = omega (arith, len, lt);
        shortest = elim is.least [
          | inl z ↦ inl (omega (arith, len, z))
          | inr le ↦ inr (rw last le)
        ];
      },
    )
