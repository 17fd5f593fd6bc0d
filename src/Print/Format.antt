-- ===== src/Print/Format.antt =====
-- kernel/kprintf.c, `do_kprintf_internal`: the loop over the format.
use minima.Base.{
  ℕ, zero, suc, ◌%◌, ◌^◌, Bool, true, false, Option, none, some, List, [], ◌∷◌, ◌++◌, ◌==◌, leb,
  if◌then◌else◌, get_or, take, drop,
}
use minima.Print.{pru32, pri32, byte_at, kprinthex_internal, kprinthex4, kprinthex2, try_get_num}

-- What the variable arguments hold: 32-bit words, and strings, none where the pointer is NULL.
pub data Arg : Type 0 where
  word : ℕ → Arg
  str : Option (List ℕ) → Arg

unfoldable pub kprinthex3 : ℕ → List ℕ
kprinthex3 val =
    48
    ∷ 120
    ∷ (kprinthex_internal (byte_at 2 val)
        ++ (kprinthex_internal (byte_at 1 val) ++ kprinthex_internal (byte_at 0 val)))

unfoldable pub kprinthex1 : ℕ → List ℕ
kprinthex1 val = 48 ∷ 120 ∷ kprinthex_internal val

-- `%h`, for the number of digits in front of it and their value, with the conversions of the argument
unfoldable pub hex_of : ℕ → ℕ → ℕ → List ℕ
hex_of num_chars num val =
    if num_chars == 0
    then kprinthex4 val
    else if num == 0
    then kprinthex_internal (val % 2 ^ 8)
    else if leb num 1
    then kprinthex1 (val % 2 ^ 8)
    else if leb num 2
    then kprinthex2 (val % 2 ^ 16)
    else if leb num 3
    then kprinthex3 val
    else kprinthex4 val

-- `%s`; the terminating 0 is not part of a list, so its length is what `strlen` counts.
unfoldable pub str_of : ℕ → ℕ → Option (List ℕ) → List ℕ
str_of num_chars num none = 40 ∷ 110 ∷ 117 ∷ 108 ∷ 108 ∷ 41 ∷ []
str_of num_chars num (some s) = if num_chars == 0 then s else take num s

-- What a directive prints, the arguments after it, and whether its letter is taken in. None is an
-- argument that is missing or of another type.
abbrev pub Directive : Type 0
Directive = Option (List ℕ × List Arg × Bool)

abbrev pub printed : Option (List ℕ) → List Arg → Directive
printed none args = none
printed (some out) args = some (out, args, true)

abbrev pub with_word : (ℕ → Option (List ℕ)) → List Arg → Directive
with_word f [] = none
with_word f (word w ∷ args) = printed (f w) args
with_word f (str s ∷ args) = none

abbrev pub with_str : (Option (List ℕ) → List ℕ) → List Arg → Directive
with_str f [] = none
with_str f (word w ∷ args) = none
with_str f (str s ∷ args) = some (f s, args, true)

-- The `switch` on `%`, `h`, `u`, `i`, `s` and `c`; `current` is `fmt[i]`.
unfoldable pub convert : ℕ → ℕ → ℕ → ℕ → List Arg → Directive
convert letter num_chars num current args =
    if letter == 37
    then some (37 ∷ [], args, true)
    else if letter == 104
    then with_word (λ w. some (hex_of num_chars num w)) args
    else if letter == 117
    then with_word pru32 args
    else if letter == 105
    then with_word pri32 args
    else if letter == 115
    then with_str (str_of num_chars num) args
    else if letter == 99
    then with_word (λ w. some (w % 2 ^ 8 ∷ [])) args
    else some (current ∷ [], args, false)

-- The text that is printed, a failure, or no rounds left.
pub data Printed : Type 0 where
  text : List ℕ → Printed
  fails : Printed
  unfinished : Printed

abbrev pub after : List ℕ → Printed → Printed
after out (text l) = text (out ++ l)
after out fails = fails
after out unfinished = unfinished

-- The number in front of a letter, with `num` 0 if there is none.
abbrev pub number : Option ℕ → ℕ
number none = 0
number (some num) = num

-- One round at a `%`, given how the loop goes on; what `try_get_num` leaves on the stack is an
-- argument.
abbrev pub finish : List ℕ → ℕ → (List ℕ → List Arg → Printed) → Directive → Printed
finish rest n loop none = fails
finish rest n loop (some (out, args, true)) = after out (loop (drop (suc n) rest) args)
finish rest n loop (some (out, args, false)) = after out (loop (drop n rest) args)

abbrev pub percent :
    List ℕ → List Arg → (List ℕ → List Arg → Printed) → Option (ℕ × Option ℕ) → Printed
percent rest args loop none = fails
percent rest args loop (some (n, num)) =
    finish rest n loop (convert (get_or rest n 0) n (number num) (get_or (37 ∷ rest) n 0) args)

-- The format is not NULL and the terminal is initialized here.
unfoldable pub do_kprintf_internal : ℕ → List ℕ → List ℕ → List Arg → Printed
do_kprintf_internal zero garbage fmt args = unfinished
do_kprintf_internal (suc fuel) garbage [] args = text []
do_kprintf_internal (suc fuel) garbage (c ∷ rest) args = elim (c == 37) [
  | true ↦ percent rest args (do_kprintf_internal fuel garbage) (try_get_num garbage rest)
  | false ↦ after (c ∷ []) (do_kprintf_internal fuel garbage rest args)
]
