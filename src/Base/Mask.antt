-- ===== src/Base/Mask.antt =====
-- `x & (2 ^ k - 1)` is the remainder by `2 ^ k`, for every width.
use Prim.Native.Nat.{
  ℕ, zero, suc, ◌+◌, ◌-◌, ◌*◌, ◌/◌, ◌%◌, ◌^◌, ◌≤◌, ◌<◌, min, bit_and, digits, bit_and-bitwise,
}
use mathlib.Core.Path.{◌≡◌, refl}
use native.Mathlib.Omega.{arith}
use native.Mathlib.Nat.{pow-suc, one-le-pow}

-- `bit_and` with its fuel shown: any fuel from the first number on gives the same.
abbrev fuelled : ℕ → ℕ → ℕ → ℕ
fuelled fuel x y = digits (λ d. zero) min fuel x y

more_fuel : (x y f g : ℕ) → x ≤ f → x ≤ g → fuelled f x y ≡ fuelled g x y
more_fuel zero y zero zero lf lg = refl
more_fuel zero y zero (suc g) lf lg = refl
more_fuel zero y (suc f) zero lf lg = refl
more_fuel zero y (suc f) (suc g) lf lg = refl
more_fuel (suc x) y zero g lf lg = absurd (omega arith)
more_fuel (suc x) y (suc f) zero lf lg = absurd (omega arith)
more_fuel (suc x) y (suc f) (suc g) lf lg =
    let half : suc x / 2 ≤ x = omega arith in
    omega (arith, more_fuel (suc x / 2) (y / 2) f g (omega (arith, half)) (omega (arith, half)))

-- The lowest digit, and the rest.
low_digit : (x y : ℕ) → bit_and x y ≡ bit_and (x / 2) (y / 2) * 2 + min (x % 2) (y % 2)
low_digit zero y = omega (arith, bit_and-bitwise 0 y, bit_and-bitwise 0 (y / 2))
low_digit (suc x) y =
    let half : suc x / 2 ≤ x = omega arith in
    let same = more_fuel (suc x / 2) (y / 2) x (suc x / 2) half (omega arith) in
    omega (arith, same, bit_and-bitwise (suc x) y, bit_and-bitwise (suc x / 2) (y / 2))

nothing : (bound x : ℕ) → x ≤ bound → bit_and x 0 ≡ 0
nothing bound zero h = refl
nothing zero (suc x) h = absurd (omega arith)
nothing (suc bound) (suc x) h =
    omega (arith, low_digit (suc x) 0, nothing bound (suc x / 2) (omega arith))

double_mod : (x m : ℕ) → 0 < m → (x / 2 % m) * 2 + x % 2 ≡ x % (m * 2)
double_mod x m pos = grind arith

pub bit_and-mask : (k x : ℕ) → bit_and x (2 ^ k - 1) ≡ x % 2 ^ k
bit_and-mask zero x = omega (arith, nothing x x (omega arith))
bit_and-mask (suc k) x =
    let m = 2 ^ k in
    let pos : 0 < m = one-le-pow k 2 (omega arith) in
    let twice : 2 ^ suc k ≡ m * 2 = pow-suc 2 k in
    ground (arith, twice, pos, low_digit x (m * 2 - 1), bit_and-mask k (x / 2), double_mod x m pos)
