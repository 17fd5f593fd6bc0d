-- ===== src/Tests/Numbers.antt =====
-- kernel/kprintf.c and kernel/timer.c at concrete inputs.
use minima.Base.{ℕ, ◌≡◌, ◌≢◌, refl, false, List, [], ◌∷◌, arith, replicate}
use minima.Print.{is_num}
use minima.Print.Format.{word, do_kprintf_internal}
use minima.Print.Pieces.{Piece, char, unsigned, render, do_kprintf_internal-render}

h_IsDigit : is_num 104 ≡ false
unfolding is_num
h_IsDigit = refl

-- `a%u` with the number 42
abbrev pieces : List Piece
pieces = char 97 ∷ unsigned ∷ []

char_IsPiece : ◌≢◌ {A = ℕ} 97 37
char_IsPiece e = omega (arith, e)

do_kprintf_internal-render_example :
    do_kprintf_internal 9 (replicate 11 77) (97 ∷ 37 ∷ 117 ∷ []) (word 42 ∷ [])
    ≡ render pieces (word 42 ∷ [])
do_kprintf_internal-render_example =
    do_kprintf_internal-render pieces 9 (replicate 11 77) (word 42 ∷ []) refl
      (char_IsPiece, (tt, tt)) (omega arith)
