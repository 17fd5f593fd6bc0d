-- ===== src/Ext2/Spans.antt =====
-- kernel/fs/ext2/ext2.c: the bytes of a file, given its blocks.
use native.Mathlib.Nat.{mul-add-div_right, div-eq_of_lt, mod-eq_of_lt, mul-add-mod_self_right}
use minima.Base.{
  ℕ, zero, suc, ◌+◌, ◌*◌, ◌/◌, ◌%◌, ◌≤◌, ◌<◌, ◌≡◌, refl, sym, ap, ◌∙◌, List, [], ◌∷◌, ◌++◌, arith,
  get_or, take, drop, length,
}

-- The bytes of a file whose blocks are given, from a place on.
abbrev pub span : (ℕ → List ℕ) → ℕ → ℕ → ℕ → List ℕ
span blocks size i zero = []
span blocks size i (suc n) = get_or (blocks (i / size)) (i % size) 0 ∷ span blocks size (suc i) n

pub append-nil : (s : List ℕ) → s ++ [] ≡ s
append-nil [] = refl
append-nil (c ∷ s) = ap (λ t. c ∷ t) (append-nil s)

pub span-append :
    (blocks : ℕ → List ℕ) (size i m n : ℕ)
    → span blocks size i (m + n) ≡ span blocks size i m ++ span blocks size (i + m) n
span-append blocks size i zero n =
    let e : 0 + n ≡ n = omega arith in
    let e' : i ≡ i + 0 = omega arith in
    ap (span blocks size i) e ∙ ap (λ j. span blocks size j n) e'
span-append blocks size i (suc m) n =
    let e : suc m + n ≡ suc (m + n) = omega arith in
    let e' : suc i + m ≡ i + suc m = omega arith in
    ap (span blocks size i) e
    ∙ ap (λ s. get_or (blocks (i / size)) (i % size) 0 ∷ s)
        (span-append blocks size (suc i) m n
          ∙ ap (λ j. span blocks size (suc i) m ++ span blocks size j n) e')

pub take-drop :
    (block : List ℕ) (k n : ℕ)
    → k < length block
    → take (suc n) (drop k block) ≡ get_or block k 0 ∷ take n (drop (suc k) block)
take-drop [] k n h = absurd (omega arith)
take-drop (x ∷ block) zero n h = refl
take-drop (x ∷ block) (suc k) n h = take-drop block k n (omega arith)

-- A part of one block.
pub span-take :
    (block : List ℕ) (blocks : ℕ → List ℕ) (size b k n : ℕ)
    → length block ≡ size
    → blocks b ≡ block
    → k + n ≤ size
    → span blocks size (b * size + k) n ≡ take n (drop k block)
span-take block blocks size b k zero len is fits = refl
span-take block blocks size b k (suc n) len is fits =
    let low : k < size = omega arith in
    let q : (b * size + k) / size ≡ b =
      omega (arith, mul-add-div_right {m = size} (omega arith) b k, div-eq_of_lt low) in
    let r : (b * size + k) % size ≡ k =
      omega (arith, mul-add-mod_self_right b size k, mod-eq_of_lt low) in
    let head : get_or (blocks ((b * size + k) / size)) ((b * size + k) % size) 0
        ≡ get_or block k 0 =
      ap (λ d. get_or (blocks d) ((b * size + k) % size) 0) q
      ∙ ap (λ m. get_or (blocks b) m 0) r
      ∙ ap (λ l. get_or l k 0) is in
    let e : suc (b * size + k) ≡ b * size + suc k = omega arith in
    let rest = span-take block blocks size b (suc k) n len is (omega arith) in
    ap (λ c. c ∷ span blocks size (suc (b * size + k)) n) head
    ∙ ap (λ j. get_or block k 0 ∷ span blocks size j n) e
    ∙ ap (λ l. get_or block k 0 ∷ l) rest
    ∙ sym (take-drop block k n (omega (arith, len)))
