-- ===== src/Print/Scan.antt =====
-- kernel/kprintf.c, `try_get_num`: it reads back what `pru32` prints.
use minima.Base.{
  ℕ, zero, suc, ◌+◌, ◌-◌, ◌*◌, ◌^◌, ◌≤◌, ◌<◌, ◌≡◌, refl, ap, ◌∙◌, true, false, some, List, [], ◌∷◌,
  ◌++◌, map, arith, length, set, length-set, lt→ltb, All, ltb, mul32,
}
use minima.Print.{is_num, read_places, sum_places, try_get_num, pru32}
use minima.Print.Digits.{value, IsDigit, pru32-IsDecimal}

abbrev total : ℕ → List ℕ → ℕ
total zero p = 0
total (suc k) [] = 0
total (suc k) (x ∷ p) = x + total k p

abbrev times_ten : List ℕ → List ℕ
times_ten p = map (λ x. mul32 x 10) p

length-times_ten : (p : List ℕ) → length (times_ten p) ≡ length p
length-times_ten [] = refl
length-times_ten (x ∷ p) = ap suc (length-times_ten p)

total-times_ten :
    (k : ℕ) (p : List ℕ) → total k p * 10 < 2 ^ 32 → total k (times_ten p) ≡ total k p * 10
total-times_ten zero p h = refl
total-times_ten (suc k) [] h = refl
total-times_ten (suc k) (x ∷ p) h = omega (arith, total-times_ten k p (omega arith))

total-set : (k d : ℕ) (p : List ℕ) → k < length p → total (suc k) (set p k d) ≡ total k p + d
total-set k d [] h = absurd (omega arith)
total-set zero d (x ∷ p) h = omega arith
total-set (suc k) d (x ∷ p) h = omega (arith, total-set k d p (omega arith))

sum_places-total :
    (n : ℕ) (p : List ℕ) (sum : ℕ)
    → sum + total n p < 2 ^ 32
    → sum_places n p sum ≡ some (sum + total n p)
unfolding sum_places
sum_places-total zero p sum h = ap some (omega arith)
sum_places-total (suc n) [] sum h = ap some (omega arith)
sum_places-total (suc n) (x ∷ p) sum h =
    ground (arith, sum_places-total n p (sum + x) (omega arith))

value_grows : (a : ℕ) (l : List ℕ) → a ≤ value a l
value_grows a [] = omega arith
value_grows a (c ∷ l) = omega (arith, value_grows (a * 10 + (c - 48)) l)

-- The text ends, or goes on with something that is no digit.
abbrev pub Ends : List ℕ → Type 0
Ends [] = Unit
Ends (c ∷ l) = is_num c ≡ false

read_places-total :
    (l rest : List ℕ) (idx : ℕ) (p : List ℕ)
    → All IsDigit l
    → Ends rest
    → idx + length l ≤ length p
    → value (total idx p) l < 2 ^ 32
    → (p' : List ℕ) × (read_places (l ++ rest) idx p ≡ some (idx + length l, p'))
      × (total (idx + length l) p' ≡ value (total idx p) l)
unfolding read_places
read_places-total [] [] idx p d e room fits =
    (p, ap (λ i. some (i, p)) (omega arith), ap (λ i. total i p) (omega arith))
read_places-total [] (c ∷ rest) idx p d e room fits =
    (p, rw e (ap (λ i. some (i, p)) (omega arith)), ap (λ i. total i p) (omega arith))
read_places-total (c ∷ l) rest idx p d e room fits =
    let v = total idx p * 10 + (c - 48) in
    let p1 = set (times_ten p) idx (c - 48) in
    let small : v < 2 ^ 32 = omega (arith, value_grows v l) in
    let in_array : ltb idx (length p) ≡ true = lt→ltb idx (length p) (omega arith) in
    let now : total (suc idx) p1 ≡ v =
      total-set idx (c - 48) (times_ten p) (omega (arith, length-times_ten p))
      ∙ ap (λ t. t + (c - 48)) (total-times_ten idx p (omega (arith, small))) in
    let (p', e', t) =
      read_places-total l rest (suc idx) p1 d.1 e
        (omega (arith, length-set (times_ten p) idx (c - 48), length-times_ten p)) (rw now fits) in
    let next : idx + suc (length l) ≡ suc idx + length l = omega arith in
    (p', rw (d.0, in_array, next) e', rw next (t ∙ ap (λ w. value w l) now))

try_get_num-some :
    (garbage str p : List ℕ) (n num : ℕ)
    → read_places str 0 garbage ≡ some (suc n, p)
    → sum_places (suc n) p 0 ≡ some num
    → try_get_num garbage str ≡ some (suc n, some num)
unfolding try_get_num
try_get_num-some garbage str p n num e f = rw (e, f, try_get_num)

-- try_get_num reads back every 32-bit number that pru32 prints, where no digit follows and whatever
-- its array of 11 places held before: it takes in exactly the digits, writes inside the array, and
-- its assertion holds.
pub try_get_num-pru32 :
    (num : ℕ) (garbage rest : List ℕ)
    → num < 2 ^ 32
    → length garbage ≡ 11
    → Ends rest
    → (l : List ℕ) × (pru32 num ≡ some l)
      × (try_get_num garbage (l ++ rest) ≡ some (length l, some num))
try_get_num-pru32 num garbage rest fits eleven ends =
    let (l, e, is) = pru32-IsDecimal num fits in
    let (p, e', t) =
      read_places-total l rest 0 garbage is.digits ends (omega (arith, is.room, eleven))
        (rw is.worth fits) in
    let n : ℕ = length l - 1 in
    let len : 0 + length l ≡ suc n = omega (arith, is.some_digit) in
    let sum : sum_places (suc n) p 0 ≡ some num =
      let worth : total (suc n) p ≡ num = rw (← len) (t ∙ is.worth) in
      sum_places-total (suc n) p 0 (omega (arith, worth)) ∙ ap some (omega (arith, worth)) in
    let same : suc n ≡ length l = omega (arith, len) in
    (
      l,
      e,
      try_get_num-some garbage (l ++ rest) p n num (rw (← len) e') sum
          ∙ ap (λ k. some (k, some num)) same,
    )
