-- ===== src/Ext2/Digits.antt =====
-- kernel/fs/ext2/ext2.c, the arithmetic of `read_i_block`: numbers of up to three digits in a base.
use native.Mathlib.Nat.{
  mul-add-div_right, div-eq_of_lt, mod-eq_of_lt, mul-add-mod_self_right, suc-mul, mul-le-mul_right,
  mul_assoc,
}
use minima.Base.{ℕ, suc, ◌+◌, ◌*◌, ◌/◌, ◌%◌, ◌≤◌, ◌<◌, ◌≡◌, ap, ◌∙◌, arith}

-- The digits of a number in base n.
pub last_digit : (n b a : ℕ) → a < n → (b * n + a) % n ≡ a
last_digit n b a h = omega (arith, mul-add-mod_self_right b n a, mod-eq_of_lt h)

pub other_digits : (n b a : ℕ) → a < n → (b * n + a) / n ≡ b
other_digits n b a h =
    omega (arith, mul-add-div_right {m = n} (omega arith) b a, div-eq_of_lt {n = a} {m = n} h)

pub middle_digit : (n c b a : ℕ) → b < n → a < n → (c * (n * n) + (b * n + a)) / n % n ≡ b
middle_digit n c b a hb ha =
    let e : c * (n * n) + (b * n + a) ≡ (c * n + b) * n + a = grind arith in
    ap (λ x. x / n % n) e ∙ ap (λ x. x % n) (other_digits n (c * n + b) a ha) ∙ last_digit n c b hb

pub lowest_digit : (n c b a : ℕ) → a < n → (c * (n * n) + (b * n + a)) % n ≡ a
lowest_digit n c b a ha =
    let e : c * (n * n) + (b * n + a) ≡ (c * n + b) * n + a = grind arith in
    ap (λ x. x % n) e ∙ last_digit n (c * n + b) a ha

pub two_digits : (n b a : ℕ) → b < n → a < n → b * n + a < n * n
two_digits n b a hb ha =
    let up : suc b * n ≤ n * n = mul-le-mul_right n hb in omega (arith, suc-mul b n, up)

pub first_digit :
    (n c b a : ℕ) → c < n → b < n → a < n → (c * (n * n) + (b * n + a)) / (n * n) % (n * n) ≡ c
first_digit n c b a hc hb ha =
    let low = two_digits n b a hb ha in
    let grows : n ≤ n * n = grind arith in
    ap (λ x. x % (n * n)) (other_digits (n * n) c (b * n + a) low)
    ∙ mod-eq_of_lt (omega (arith, grows))

pub three_digits : (n c b a : ℕ) → c < n → b < n → a < n → c * (n * n) + (b * n + a) < n * n * n
three_digits n c b a hc hb ha =
    let low = two_digits n b a hb ha in
    let up : suc c * (n * n) ≤ n * (n * n) = mul-le-mul_right (n * n) hc in
    omega (arith, suc-mul c (n * n), up, low, mul_assoc n n n)
