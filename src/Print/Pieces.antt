-- ===== src/Print/Pieces.antt =====
-- kernel/kprintf.c: what a format comes to, as a sequence of pieces.
use mathlib.Core.Path.{subst}
use mathlib.Core.List.{append_assoc}
use mathlib.Core.Option.{some-injective}
use minima.Base.{
  ℕ, zero, suc, ◌%◌, ◌^◌, ◌≤◌, ◌<◌, ◌≡◌, ◌≢◌, refl, sym, ap, ◌∙◌, true, false, Option, none, some,
  List, [], ◌∷◌, ◌++◌, arith, if◌then◌else◌, get_or, take, drop, length, All, ne→not-==,
  length-append,
}
use minima.Print.{pru32, pri32, kprinthex4, is_num, read_places, try_get_num}
use minima.Print.Digits.{pru32-IsDecimal}
use minima.Print.Scan.{try_get_num-pru32}
use minima.Print.Format.{
  Arg, word, str, Printed, text, fails, after, finish, percent, printed, with_str, convert, hex_of,
  str_of, do_kprintf_internal,
}

-- The pieces of a format: a character, `%%`, `%u`, `%i`, `%h`, `%c`, `%s`, and `%s` with the most
-- characters of it to print.
pub data Piece : Type 0 where
  char : ℕ → Piece
  percent_sign unsigned signed hex letter string : Piece
  cut : ℕ → Piece

-- The digits of a number.
abbrev digits_of : Option (List ℕ) → List ℕ
digits_of none = []
digits_of (some l) = l

abbrev pub format_of : Piece → List ℕ
format_of (char c) = c ∷ []
format_of percent_sign = 37 ∷ 37 ∷ []
format_of unsigned = 37 ∷ 117 ∷ []
format_of signed = 37 ∷ 105 ∷ []
format_of hex = 37 ∷ 104 ∷ []
format_of letter = 37 ∷ 99 ∷ []
format_of string = 37 ∷ 115 ∷ []
format_of (cut n) = 37 ∷ (digits_of (pru32 n) ++ (115 ∷ []))

abbrev pub format : List Piece → List ℕ
format [] = []
format (p ∷ ps) = format_of p ++ format ps

-- A character is not `%`; a number has 32 bits.
abbrev pub IsPiece : Piece → Type 0
IsPiece (char c) = c ≢ 37
IsPiece (cut n) = n < 2 ^ 32
IsPiece other = Unit

-- What a piece prints, and the arguments after it; none where its argument is missing or of another
-- type.
abbrev pub shown : Option (List ℕ) → List Arg → Option (List ℕ × List Arg)
shown none args = none
shown (some out) args = some (out, args)

abbrev pub render_piece : Piece → List Arg → Option (List ℕ × List Arg)
render_piece (char c) args = some (c ∷ [], args)
render_piece percent_sign args = some (37 ∷ [], args)
render_piece unsigned (word w ∷ args) = shown (pru32 w) args
render_piece signed (word w ∷ args) = shown (pri32 w) args
render_piece hex (word w ∷ args) = some (kprinthex4 w, args)
render_piece letter (word w ∷ args) = some (w % 256 ∷ [], args)
render_piece string (str none ∷ args) = some (40 ∷ 110 ∷ 117 ∷ 108 ∷ 108 ∷ 41 ∷ [], args)
render_piece string (str (some s) ∷ args) = some (s, args)
render_piece (cut n) (str none ∷ args) = some (40 ∷ 110 ∷ 117 ∷ 108 ∷ 108 ∷ 41 ∷ [], args)
render_piece (cut n) (str (some s) ∷ args) = some (take n s, args)
render_piece other args = none

abbrev go_on : (List Arg → Printed) → Option (List ℕ × List Arg) → Printed
go_on next none = fails
go_on next (some (out, args)) = after out (next args)

-- What the pieces print one after the other.
abbrev pub render : List Piece → List Arg → Printed
render [] args = text []
render (p ∷ ps) args = go_on (render ps) (render_piece p args)

shown-finish :
    (rest : List ℕ) (loop : List ℕ → List Arg → Printed) (c : ℕ) (o : Option (List ℕ))
    (args : List Arg)
    → finish (c ∷ rest) 0 loop (printed o args) ≡ go_on (loop rest) (shown o args)
shown-finish rest loop c none args = refl
shown-finish rest loop c (some out) args = refl

drop_letter : (l rest : List ℕ) → drop (suc (length l)) (l ++ (115 ∷ rest)) ≡ rest
drop_letter [] rest = refl
drop_letter (c ∷ l) rest = drop_letter l rest

get_or_letter : (l rest : List ℕ) → get_or (l ++ (115 ∷ rest)) (length l) 0 ≡ 115
get_or_letter [] rest = refl
get_or_letter (c ∷ l) rest = get_or_letter l rest

module _ (fuel : ℕ) (garbage : List ℕ) (eleven : length garbage ≡ 11) where
  -- `%`, digits and `s`
  finish-cut :
      (n : ℕ) (l rest : List ℕ) (args : List Arg)
      → 0 < length l
      → finish
          (l ++ (115 ∷ rest))
          (length l)
          (do_kprintf_internal fuel garbage)
          (with_str (str_of (length l) n) args)
        ≡ go_on (do_kprintf_internal fuel garbage rest) (render_piece (cut n) args)
  unfolding str_of
  finish-cut n l rest [] pos = refl
  finish-cut n l rest (word w ∷ args) pos = refl
  finish-cut n l rest (str none ∷ args) pos =
      ap
        (λ t.
          after (40 ∷ 110 ∷ 117 ∷ 108 ∷ 108 ∷ 41 ∷ []) (do_kprintf_internal fuel garbage t args))
        (drop_letter l rest)
  finish-cut n l rest (str (some s) ∷ args) pos =
      ap
        (λ b.
          after (if b then s else take n s)
            (do_kprintf_internal fuel garbage (drop (suc (length l)) (l ++ (115 ∷ rest))) args))
        (ne→not-== (length l) 0 (λ e. omega (arith, e, pos)))
      ∙ ap (λ t. after (take n s) (do_kprintf_internal fuel garbage t args)) (drop_letter l rest)

  cut_lem :
      (n : ℕ) (rest : List ℕ) (args : List Arg)
      → n < 2 ^ 32
      → do_kprintf_internal (suc fuel) garbage (format_of (cut n) ++ rest) args
        ≡ go_on (do_kprintf_internal fuel garbage rest) (render_piece (cut n) args)
  unfolding do_kprintf_internal convert is_num
  cut_lem n rest args small =
      let (l, prints, reads) = try_get_num-pru32 n garbage (115 ∷ rest) small eleven refl in
      let (l', prints', is) = pru32-IsDecimal n small in
      let same : l ≡ l' = some-injective _ _ (sym prints ∙ prints') in
      let pos : 0 < length l = subst (λ t. 0 < length t) (sym same) is.some_digit in
      let looped = do_kprintf_internal fuel garbage in
      let digits : digits_of (pru32 n) ++ (115 ∷ []) ++ rest ≡ l ++ (115 ∷ rest) =
        ap (λ o. digits_of o ++ (115 ∷ []) ++ rest) prints ∙ append_assoc l (115 ∷ []) rest in
      ap (λ t. percent t args looped (try_get_num garbage t)) digits
      ∙ ap (percent (l ++ (115 ∷ rest)) args looped) reads
      ∙ ap
          (λ c.
            finish (l ++ (115 ∷ rest)) (length l) looped
              (convert c (length l) n (get_or (37 ∷ (l ++ (115 ∷ rest))) (length l) 0) args))
          (get_or_letter l rest)
      ∙ finish-cut n l rest args pos

  piece_lem :
      (p : Piece) (rest : List ℕ) (args : List Arg)
      → IsPiece p
      → do_kprintf_internal (suc fuel) garbage (format_of p ++ rest) args
        ≡ go_on (do_kprintf_internal fuel garbage rest) (render_piece p args)
  unfolding do_kprintf_internal try_get_num read_places is_num convert hex_of str_of
  piece_lem (char c) rest args h =
      ap
        (λ b. elim b [
          | true ↦ percent rest args (do_kprintf_internal fuel garbage) (try_get_num garbage rest)
          | false ↦ after (c ∷ []) (do_kprintf_internal fuel garbage rest args)
        ])
        (ne→not-== c 37 h)
  piece_lem percent_sign rest args h = refl
  piece_lem unsigned rest [] h = refl
  piece_lem unsigned rest (word w ∷ args) h =
      shown-finish rest (do_kprintf_internal fuel garbage) 117 (pru32 w) args
  piece_lem unsigned rest (str s ∷ args) h = refl
  piece_lem signed rest [] h = refl
  piece_lem signed rest (word w ∷ args) h =
      shown-finish rest (do_kprintf_internal fuel garbage) 105 (pri32 w) args
  piece_lem signed rest (str s ∷ args) h = refl
  piece_lem hex rest [] h = refl
  piece_lem hex rest (word w ∷ args) h = refl
  piece_lem hex rest (str s ∷ args) h = refl
  piece_lem letter rest [] h = refl
  piece_lem letter rest (word w ∷ args) h = refl
  piece_lem letter rest (str s ∷ args) h = refl
  piece_lem string rest [] h = refl
  piece_lem string rest (word w ∷ args) h = refl
  piece_lem string rest (str none ∷ args) h = refl
  piece_lem string rest (str (some s) ∷ args) h = refl
  piece_lem (cut n) rest args h = cut_lem n rest args h

go_on-same :
    (next next' : List Arg → Printed) (o : Option (List ℕ × List Arg))
    → ((args : List Arg) → next args ≡ next' args)
    → go_on next o ≡ go_on next' o
go_on-same next next' none same = refl
go_on-same next next' (some (out, args)) same = ap (after out) (same args)

length-format_of : (p : Piece) → 1 ≤ length (format_of p)
length-format_of (char c) = omega arith
length-format_of percent_sign = omega arith
length-format_of unsigned = omega arith
length-format_of signed = omega arith
length-format_of hex = omega arith
length-format_of letter = omega arith
length-format_of string = omega arith
length-format_of (cut n) = omega arith

-- For a format that is put together from characters other than `%`, `%%`, `%u`, `%i`, `%h`, `%c`,
-- `%s` and `%s` with a 32-bit number in front of the letter, do_kprintf_internal ends within one
-- round more than the format has characters, whatever its array of 11 places held before: it prints
-- what the pieces print one after the other, and fails where an argument is missing or of another
-- type.
pub do_kprintf_internal-render :
    (ps : List Piece) (fuel : ℕ) (garbage : List ℕ) (args : List Arg)
    → length garbage ≡ 11
    → All IsPiece ps
    → length (format ps) < fuel
    → do_kprintf_internal fuel garbage (format ps) args ≡ render ps args
unfolding do_kprintf_internal
do_kprintf_internal-render ps zero garbage args eleven all room = absurd (omega arith)
do_kprintf_internal-render [] (suc fuel) garbage args eleven all room = refl
do_kprintf_internal-render (p ∷ ps) (suc fuel) garbage args eleven all room =
    let room' : length (format ps) < fuel =
      omega (arith, room, length-append (format_of p) (format ps), length-format_of p) in
    piece_lem fuel garbage eleven p (format ps) args all.0
    ∙ go_on-same (do_kprintf_internal fuel garbage (format ps)) (render ps) (render_piece p args)
        (λ args'. do_kprintf_internal-render ps fuel garbage args' eleven all.1 room')
