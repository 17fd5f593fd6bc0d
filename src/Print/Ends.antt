-- ===== src/Print/Ends.antt =====
-- kernel/kprintf.c: the loop over the format ends.
use minima.Base.{
  ℕ, zero, suc, ◌≤◌, ◌<◌, ◌≢◌, refl, true, false, Option, none, some, List, [], ◌∷◌, arith, ◌==◌,
  drop, length,
}
use minima.Print.{try_get_num}
use minima.Print.Format.{
  Arg, Directive, Printed, text, fails, unfinished, after, finish, percent, do_kprintf_internal,
}

length-drop : (n : ℕ) (l : List ℕ) → length (drop n l) ≤ length l
length-drop zero l = omega arith
length-drop (suc n) [] = omega arith
length-drop (suc n) (c ∷ l) = omega (arith, length-drop n l)

after-finished : (out : List ℕ) (r : Printed) → r ≢ unfinished → after out r ≢ unfinished
after-finished out (text l) h e = cc
after-finished out fails h e = cc
after-finished out unfinished h e = h refl

fails-finished : fails ≢ unfinished
fails-finished e = cc

finish-finished :
    (rest : List ℕ) (n : ℕ) (loop : List ℕ → List Arg → Printed) (d : Directive)
    → ((l : List ℕ) (args : List Arg) → length l ≤ length rest → loop l args ≢ unfinished)
    → finish rest n loop d ≢ unfinished
finish-finished rest n loop none ends = fails-finished
finish-finished rest n loop (some (out, args, true)) ends =
    after-finished out _ (ends (drop (suc n) rest) args (length-drop (suc n) rest))
finish-finished rest n loop (some (out, args, false)) ends =
    after-finished out _ (ends (drop n rest) args (length-drop n rest))

percent-finished :
    (rest : List ℕ) (args : List Arg) (loop : List ℕ → List Arg → Printed)
    (o : Option (ℕ × Option ℕ))
    → ((l : List ℕ) (args : List Arg) → length l ≤ length rest → loop l args ≢ unfinished)
    → percent rest args loop o ≢ unfinished
percent-finished rest args loop none ends = fails-finished
percent-finished rest args loop (some (n, num)) ends = finish-finished rest n loop _ ends

-- Whatever the format and its arguments are, do_kprintf_internal ends within one round more than
-- the format has characters.
do_kprintf_internal-finished :
    (fuel : ℕ) (garbage fmt : List ℕ) (args : List Arg)
    → length fmt < fuel
    → do_kprintf_internal fuel garbage fmt args ≢ unfinished
unfolding do_kprintf_internal
do_kprintf_internal-finished zero garbage fmt args room = absurd (omega arith)
do_kprintf_internal-finished (suc fuel) garbage [] args room = λ e. cc
do_kprintf_internal-finished (suc fuel) garbage (c ∷ rest) args room =
    elim (c == 37)
      as (λ b.
        (elim b [
          | true ↦ percent rest args (do_kprintf_internal fuel garbage) (try_get_num garbage rest)
          | false ↦ after (c ∷ []) (do_kprintf_internal fuel garbage rest args)
        ])
        ≢ unfinished) [
          | true ↦
              percent-finished rest args (do_kprintf_internal fuel garbage)
                (try_get_num garbage rest)
                (λ l args' h.
                  do_kprintf_internal-finished fuel garbage l args' (omega (arith, h, room)))
          | false ↦
              after-finished (c ∷ []) _
                (do_kprintf_internal-finished fuel garbage rest args (omega (arith, room)))
        ]
