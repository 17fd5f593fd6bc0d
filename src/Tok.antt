-- ===== src/Tok.antt =====
-- kernel/include/lib/v.h, v_tok: the tokenizer of paths and command lines. The characters between
-- `beg` and `end` are a list; the tokenizer that `v_tok_consume` leaves one past the end, for which
-- every test is the same as for an empty one, is the empty list.
pub mod Words
use minima.Base.{
  ℕ, zero, suc, ◌+◌, Bool, true, false, not, ◌&&◌, Option, none, some, List, [], ◌∷◌, ◌++◌, ◌==◌,
  if◌then◌else◌, length, drop, get_or,
}

-- `v_tok`
pub record VTok : Type 0 where
  pub chars : List ℕ
  pub sep : ℕ

-- The two loops of `v_tok_peek` and `v_tok_consume`: past the separators, and up to the next one.
unfoldable pub skip_seps : ℕ → List ℕ → List ℕ
skip_seps sep [] = []
skip_seps sep (c ∷ s) = if c == sep then skip_seps sep s else c ∷ s

unfoldable pub until_sep : ℕ → List ℕ → List ℕ
until_sep sep [] = []
until_sep sep (c ∷ s) = if c == sep then [] else c ∷ until_sep sep s

abbrev pub v_tok_len : VTok → ℕ
v_tok_len t = length t.chars

abbrev pub v_tok_empty : VTok → Bool
v_tok_empty t = elim t.chars [ [] ↦ true | c ∷ s ↦ false ]

unfoldable pub v_tok_peek : VTok → VTok
v_tok_peek t = record t { chars = until_sep t.sep (skip_seps t.sep t.chars) }

-- the token, and the tokenizer after it and the separator behind it
unfoldable pub v_tok_consume : VTok → VTok × VTok
v_tok_consume t =
    let from = skip_seps t.sep t.chars in
    let token = until_sep t.sep from in
    (record t { chars = token }, record t { chars = drop (suc (length token)) from })

-- `while (part = v_tok_consume(&t), !v_tok_empty(part))` with its rounds: a body is given what it
-- works on, the token, and what follows it. `dry` is the end of the fuel.
unfoldable pub tok_loop :
    {X R : Type 0} → (X → R) → (X → R) → (X → List ℕ → (X → R) → R) → ℕ → X → VTok → R
unfolding v_tok_consume
tok_loop stop dry step zero x t = dry x
tok_loop stop dry step (suc fuel) x t =
    let (part, rest) = v_tok_consume t in
    if v_tok_empty part
    then stop x
    else step x part.chars (λ x'. tok_loop stop dry step fuel x' rest)

-- The loop of `v_tok_count`, with the rounds left and `n` so far.
unfoldable pub count_loop : ℕ → VTok → ℕ → Option ℕ
unfolding v_tok_consume
count_loop zero t n = none
count_loop (suc fuel) t n =
    let (token, rest) = v_tok_consume t in
    let more = count_loop fuel rest (n + 1) in if v_tok_empty rest then some (n + 1) else more

unfoldable pub v_tok_count : ℕ → VTok → Option ℕ
v_tok_count fuel t = count_loop fuel t 0

-- The loop of `v_tok_eq`; a string is followed by NUL.
unfoldable pub eq_loop : List ℕ → List ℕ → Bool
eq_loop [] str = true
eq_loop (c ∷ s) [] = c == 0 && eq_loop s []
eq_loop (c ∷ s) (d ∷ str) = c == d && eq_loop s str

unfoldable pub v_tok_eq : VTok → List ℕ → Bool
v_tok_eq t str = eq_loop t.chars str
