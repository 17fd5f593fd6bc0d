-- ===== src/Utils/Compare.antt =====
-- kernel/utils.c: when two strings or buffers compare equal.
use mathlib.Core.Path.{ap₂}
use mathlib.Core.Option.{some-injective}
use native.Mathlib.Decide.{ℕ_discrete}
use minima.Base.{
  ℕ, zero, suc, ◌≤◌, ◌<◌, ◌≡◌, ◌≢◌, ◌↔◌, refl, true, false, ==_refl, ne→not-==, none, some, List,
  [], ◌∷◌, arith, take, length, All, ◌==◌, ∷-injective,
}
use minima.Utils.{strcmp, strncmp, memcmp}

-- a byte of a string
abbrev pub IsChar : ℕ → Type 0
IsChar c = (0 < c) × (c < 256)

-- For strings whose bytes are from 1 to 255, strcmp returns 0 when they are equal, and only then.
pub strcmp-zero : (s t : List ℕ) → All IsChar s → All IsChar t → (strcmp s t ≡ 0) ↔ (s ≡ t)
unfolding strcmp
strcmp-zero [] [] hs ht = (λ e. refl, λ e. refl)
strcmp-zero [] (b ∷ t) hs ht = (λ e. absurd (omega (arith, ht.0)), λ e. cc)
strcmp-zero (a ∷ s) [] hs ht = (λ e. absurd (omega (arith, hs.0)), λ e. cc)
strcmp-zero (a ∷ s) (b ∷ t) hs ht = elim (ℕ_discrete a b) [
  | yes q ↦
      let rest = strcmp-zero s t hs.1 ht.1 in
      let same : (a == b) ≡ true = rw q (==_refl b) in
      rw same (λ e. ap₂ ◌∷◌ q (rest.0 e), λ e. rest.1 (∷-injective e).1)
  | no ne ↦
      let other : (a == b) ≡ false = ne→not-== a b ne in
      rw other (λ e. absurd (omega (arith, e, ne, hs.0, ht.0)), λ e. absurd (ne (∷-injective e).0))
]

-- strncmp returns what strcmp returns on the two strings cut off at n bytes.
pub strncmp-take : (s t : List ℕ) (n : ℕ) → strncmp s t n ≡ strcmp (take n s) (take n t)
unfolding strncmp strcmp
strncmp-take s t zero = refl
strncmp-take [] [] (suc n) = refl
strncmp-take [] (b ∷ t) (suc n) = refl
strncmp-take (a ∷ s) [] (suc n) = refl
strncmp-take (a ∷ s) (b ∷ t) (suc n) = ground (arith, strncmp-take s t n)

-- On buffers of bytes that both have at least n, memcmp reads inside them, and returns 0 when their
-- first n bytes agree, and only then.
pub memcmp-zero :
    (s t : List ℕ) (n : ℕ)
    → All (λ c. c < 256) s
    → All (λ c. c < 256) t
    → n ≤ length s
    → n ≤ length t
    → (memcmp s t n ≢ none) × ((memcmp s t n ≡ some 0) ↔ (take n s ≡ take n t))
unfolding memcmp
memcmp-zero s t zero hs ht ls lt = (λ e. cc, (λ e. refl, λ e. refl))
memcmp-zero [] t (suc n) hs ht ls lt = absurd (omega arith)
memcmp-zero (a ∷ s) [] (suc n) hs ht ls lt = absurd (omega arith)
memcmp-zero (a ∷ s) (b ∷ t) (suc n) hs ht ls lt =
    let (ok, rest) = memcmp-zero s t n hs.1 ht.1 (omega arith) (omega arith) in
    elim (ℕ_discrete a b) [
      | yes q ↦
          let same : (a == b) ≡ true = rw q (==_refl b) in
          rw same (ok, (λ e. ap₂ ◌∷◌ q (rest.0 e), λ e. rest.1 (∷-injective e).1))
      | no ne ↦
          let other : (a == b) ≡ false = ne→not-== a b ne in
          rw other (
            λ e. cc,
            (
              λ e. absurd (omega (arith, some-injective _ _ e, ne, hs.0, ht.0)),
              λ e. absurd (ne (∷-injective e).0),
            ),
          )
    ]
