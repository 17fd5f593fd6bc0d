-- ===== src/Tok/Words.antt =====
-- kernel/include/lib/v.h, v_tok: the tokens that a loop over v_tok_consume sees are the words of the
-- string.
use mathlib.Core.Path.{ap₂}
use minima.Base.{
  ◌++◌, ==_refl, ℕ, zero, suc, ◌≤◌, ◌<◌, ◌≡◌, refl, sym, ap, ◌∙◌, true, false, List, [], ◌∷◌, arith,
  ◌==◌, if◌then◌else◌, length, drop, take, ◌↔◌, Bool-cases, ∷-injective, inl, inr, ◌⊎◌, All, ==→eq,
  not-==→ne,
}
use minima.Tok.{tok_loop, VTok, skip_seps, until_sep, v_tok_empty, v_tok_consume, eq_loop, v_tok_eq}

-- A word that has begun, in front of the words behind it; an empty one is none.
abbrev pub close_word : List ℕ → List (List ℕ) → List (List ℕ)
close_word [] ws = ws
close_word (c ∷ w) ws = (c ∷ w) ∷ ws

-- Cut a string at every separator: the word that it begins with, and the words behind that one.
unfoldable pub cut : ℕ → List ℕ → List ℕ × List (List ℕ)
cut sep [] = ([], [])
cut sep (c ∷ s) = let (w, ws) = cut sep s in if c == sep then ([], close_word w ws) else (c ∷ w, ws)

unfoldable pub words : ℕ → List ℕ → List (List ℕ)
unfolding cut
words sep s = let (w, ws) = cut sep s in close_word w ws

words-skip : (sep : ℕ) (s : List ℕ) → words sep (skip_seps sep s) ≡ words sep s
unfolding words skip_seps
words-skip sep [] = refl
words-skip sep (c ∷ s) = ground (arith, words-skip sep s)

cut-until : (sep : ℕ) (s : List ℕ) → (cut sep s).0 ≡ until_sep sep s
unfolding cut until_sep
cut-until sep [] = refl
cut-until sep (c ∷ s) = ground (arith, cut-until sep s)

cut-rest :
    (sep : ℕ) (s : List ℕ) → (cut sep s).1 ≡ words sep (drop (suc (length (until_sep sep s))) s)
unfolding cut until_sep words
cut-rest sep [] = refl
cut-rest sep (c ∷ s) = elim (Bool-cases (c == sep)) [
  | inl same ↦ rw same refl
  | inr other ↦ rw other (cut-rest sep s)
]

length-skip : (sep : ℕ) (s : List ℕ) → length (skip_seps sep s) ≤ length s
unfolding skip_seps
length-skip sep [] = omega arith
length-skip sep (c ∷ s) = ground (arith, length-skip sep s)

length-drop : (n : ℕ) (s : List ℕ) → length (drop n s) ≤ length s
length-drop zero s = omega arith
length-drop (suc n) [] = omega arith
length-drop (suc n) (c ∷ s) = omega (arith, length-drop n s)

-- The words of a string that does not begin with a separator.
words-until :
    (sep c : ℕ) (s : List ℕ)
    → (c == sep) ≡ false
    → words sep (c ∷ s)
      ≡ until_sep sep (c ∷ s) ∷ words sep (drop (suc (length (until_sep sep (c ∷ s)))) (c ∷ s))
unfolding words cut until_sep
words-until sep c s other = rw other (ap₂ ◌∷◌ (ap (λ w. c ∷ w) (cut-until sep s)) (cut-rest sep s))

-- A string after its leading separators is empty or begins with a character of a word.
skip-begins :
    (sep : ℕ) (s : List ℕ)
    → (skip_seps sep s ≡ [])
      ⊎ ((c : ℕ) × (s' : List ℕ) × (skip_seps sep s ≡ c ∷ s') × ((c == sep) ≡ false))
unfolding skip_seps
skip-begins sep [] = inl refl
skip-begins sep (c ∷ s) = elim (Bool-cases (c == sep)) [
  | inl same ↦ rw same (skip-begins sep s)
  | inr other ↦ rw other (inr (c, s, refl, other))
]

close-append :
    (w : List ℕ) (ws vs : List (List ℕ)) → close_word w (ws ++ vs) ≡ close_word w ws ++ vs
close-append [] ws vs = refl
close-append (c ∷ w) ws vs = refl

cut-append :
    (sep : ℕ) (a b : List ℕ)
    → cut sep (a ++ sep ∷ b) ≡ ((cut sep a).0, (cut sep a).1 ++ words sep b)
unfolding cut words
cut-append sep [] b = rw (==_refl sep) refl
cut-append sep (c ∷ a) b = elim (Bool-cases (c == sep)) [
  | inl same ↦
      rw (same, cut-append sep a b)
        (ap (λ ws. ([], ws)) (close-append (cut sep a).0 (cut sep a).1 (words sep b)))
  | inr other ↦ rw (other, cut-append sep a b) refl
]

-- The words of a string cut at a separator are those of its two parts.
pub words-append : (sep : ℕ) (a b : List ℕ) → words sep (a ++ sep ∷ b) ≡ words sep a ++ words sep b
unfolding words
words-append sep a b =
    ap (λ p. close_word p.0 p.1) (cut-append sep a b)
    ∙ close-append (cut sep a).0 (cut sep a).1 (words sep b)

until-word :
    (sep c : ℕ) (s : List ℕ) → (c == sep) ≡ false → until_sep sep (c ∷ s) ≡ c ∷ until_sep sep s
unfolding until_sep
until-word sep c s other = rw other refl

module _ {X R : Type 0} (stop dry : X → R) (step : X → List ℕ → (X → R) → R) where
  -- The same over a list of words.
  abbrev pub word_loop : X → List (List ℕ) → R
  word_loop x [] = stop x
  word_loop x (w ∷ ws) = step x w (λ x'. word_loop x' ws)

  -- One round of the loop, from the first character of its token on.
  abbrev round : ℕ → X → ℕ → List ℕ → R
  round fuel x sep from =
      let part : VTok = record { chars = until_sep sep from; sep = sep } in
      let rest : VTok = record {
        chars = drop (suc (length (until_sep sep from))) from;
        sep = sep;
      } in
      if v_tok_empty part
      then stop x
      else step x part.chars (λ x'. tok_loop stop dry step fuel x' rest)

  round-word :
      (fuel : ℕ) (x : X) (sep c : ℕ) (s : List ℕ)
      → (c == sep) ≡ false
      → round fuel x sep (c ∷ s)
        ≡ step x (until_sep sep (c ∷ s)) (λ x'.
          tok_loop stop dry step fuel x'
            (record { chars = drop (suc (length (until_sep sep (c ∷ s)))) (c ∷ s); sep = sep }))
  round-word fuel x sep c s other =
      ap
        (λ part.
          if v_tok_empty (record { chars = part; sep = sep })
          then stop x
          else step x (until_sep sep (c ∷ s)) (λ x'.
            tok_loop stop dry step fuel x'
              (record { chars = drop (suc (length (until_sep sep (c ∷ s)))) (c ∷ s); sep = sep })))
        (until-word sep c s other)

  -- With one round more than the string has characters, a loop over v_tok_consume that ends at the
  -- first empty token is the loop over the words of the string.
  pub tok_loop-words :
      (fuel : ℕ) (x : X) (t : VTok)
      → length t.chars < fuel
      → tok_loop stop dry step fuel x t ≡ word_loop x (words t.sep t.chars)
  unfolding tok_loop v_tok_consume words until_sep
  tok_loop-words zero x t h = absurd (omega arith)
  tok_loop-words (suc fuel) x t h = elim (skip-begins t.sep t.chars) [
    | inl e ↦
        let none_left : words t.sep t.chars ≡ [] =
          sym (words-skip t.sep t.chars) ∙ ap (words t.sep) e in
        ap (round fuel x t.sep) e ∙ ap (word_loop x) (sym none_left)
    | inr (c, s, e, other) ↦
        let rest = drop (suc (length (until_sep t.sep (c ∷ s)))) (c ∷ s) in
        let shorter : length rest < fuel = omega (
          arith,
          length-drop (length (until_sep t.sep (c ∷ s))) s,
          ap length (sym e),
          length-skip t.sep t.chars,
        ) in
        let later : (x' : X)
            → tok_loop stop dry step fuel x' (record { chars = rest; sep = t.sep })
              ≡ word_loop x' (words t.sep rest) =
          λ x'. tok_loop-words fuel x' (record { chars = rest; sep = t.sep }) shorter in
        let all : words t.sep t.chars ≡ until_sep t.sep (c ∷ s) ∷ words t.sep rest =
          sym (words-skip t.sep t.chars) ∙ ap (words t.sep) e ∙ words-until t.sep c s other in
        ap (round fuel x t.sep) e
        ∙ round-word fuel x t.sep c s other
        ∙ ap (step x (until_sep t.sep (c ∷ s))) (λ i x'. later x' i)
        ∙ ap (word_loop x) (sym all)
  ]

eq_loop-prefix :
    (s str : List ℕ) → All (λ c. 0 < c) s → (eq_loop s str ≡ true) ↔ (take (length s) str ≡ s)
unfolding eq_loop
eq_loop-prefix [] str nuls = (λ e. refl, λ e. refl)
eq_loop-prefix (c ∷ s) [] nuls = (λ e. absurd (ground (arith, e, nuls.0)), λ e. cc)
eq_loop-prefix (c ∷ s) (d ∷ str) nuls = elim (Bool-cases (c == d)) [
  | inl same ↦
      let (go, back) = eq_loop-prefix s str nuls.1 in
      let q : d ≡ c = sym (==→eq c d same) in
      rw same (λ e. ap₂ ◌∷◌ q (go e), λ e. back (∷-injective e).1)
  | inr other ↦ rw other (λ e. cc, λ e. absurd (not-==→ne c d other (sym (∷-injective e).0)))
]

-- Where the token holds no NUL, v_tok_eq is true when the token is a prefix of the string, and
-- only then.
pub v_tok_eq-prefix :
    (t : VTok) (str : List ℕ)
    → All (λ c. 0 < c) t.chars
    → (v_tok_eq t str ≡ true) ↔ (take (length t.chars) str ≡ t.chars)
unfolding v_tok_eq
v_tok_eq-prefix t str nuls = eq_loop-prefix t.chars str nuls
