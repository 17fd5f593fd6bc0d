-- ===== src/Ringbuf/Window.antt =====
-- The bytes that a ring holds, by the positions that they were written at: position `t` is the
-- index `t % cap`.
use minima.Base.{
  ℕ, zero, suc, ◌+◌, ◌-◌, ◌%◌, ◌≤◌, ◌<◌, ◌≡◌, ◌≢◌, refl, ap, sym, ◌∙◌, List, [], ◌∷◌, ◌++◌, arith,
  get_or, set, get_or-set_ne,
}
use mathlib.Core.Path.{ap₂}
use native.Mathlib.Nat.{mod-add-mod}

module _ (cap : ℕ) where
  -- the bytes of the `n` positions behind `t`, the oldest first
  abbrev pub held : List ℕ → ℕ → ℕ → List ℕ
  held buf t zero = []
  held buf t (suc n) = get_or buf ((t + 1) % cap) 0 ∷ held buf (t + 1) n

  pub held_wrap : (buf : List ℕ) (t n : ℕ) → held buf (t % cap) n ≡ held buf t n
  held_wrap buf t zero = refl
  held_wrap buf t (suc n) =
      let same : (t % cap + 1) % cap ≡ (t + 1) % cap = mod-add-mod t cap 1 in
      ap₂ (λ i l. get_or buf i 0 ∷ l) same
        (sym (held_wrap buf (t % cap + 1) n)
          ∙ ap (λ i. held buf i n) same
          ∙ held_wrap buf (t + 1) n)

  -- Less than a round apart, two positions have different indices.
  index-ne : (a b : ℕ) → a < b → b < a + cap → a % cap ≢ b % cap
  index-ne a b lo hi = grind arith

  pub held-set :
      (buf : List ℕ) (t n m x : ℕ)
      → n < m
      → m ≤ cap
      → held (set buf ((t + m) % cap) x) t n ≡ held buf t n
  held-set buf t zero m x lo hi = refl
  held-set buf t (suc n) m x lo hi =
      let e : t + m ≡ t + 1 + (m - 1) = omega arith in
      ap₂ ◌∷◌
        (get_or-set_ne buf x 0 (λ q. index-ne (t + 1) (t + m) (omega arith) (omega arith) (sym q)))
        (ap (λ j. held (set buf (j % cap) x) (t + 1) n) e
          ∙ held-set buf (t + 1) n (m - 1) x (omega arith) (omega arith))

  pub held_snoc :
      (buf : List ℕ) (t n : ℕ)
      → held buf t (suc n) ≡ held buf t n ++ (get_or buf ((t + suc n) % cap) 0 ∷ [])
  held_snoc buf t zero = refl
  held_snoc buf t (suc n) =
      let e : t + suc (suc n) ≡ t + 1 + suc n = omega arith in
      ap (λ l. get_or buf ((t + 1) % cap) 0 ∷ l)
        (held_snoc buf (t + 1) n
          ∙ ap (λ j. held buf (t + 1) n ++ (get_or buf (j % cap) 0 ∷ [])) (sym e))
