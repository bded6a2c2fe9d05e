-- ===== src/Base/Bits.antt =====
-- `&` with a mask of low ones or of high ones, at variables.
use Prim.Native.Nat.{
  ℕ, zero, suc, ◌+◌, ◌-◌, ◌*◌, ◌/◌, ◌%◌, ◌^◌, ◌≤◌, ◌<◌, min, bit_and, digits, bit_and-bitwise,
}
use mathlib.Core.Path.{◌≡◌, refl}
use native.Mathlib.Nat.{pow-suc, mod-eq_of_lt}
use native.Mathlib.Omega.{arith}

-- The definition of the native operation, on a count of digits.
abbrev and_digits : ℕ → ℕ → ℕ → ℕ
and_digits n a b = digits (λ b. zero) min n a b

-- Once there are as many digits as the first number, more do not matter.
no_digits_left : (n y : ℕ) → and_digits n 0 y ≡ 0
no_digits_left zero y = refl
no_digits_left (suc n) y = refl

and_digits_enough : (x y n m : ℕ) → x ≤ n → x ≤ m → and_digits n x y ≡ and_digits m x y
and_digits_enough zero y n m hn hm = omega (arith, no_digits_left n y, no_digits_left m y)
and_digits_enough (suc x) y zero m hn hm = absurd (omega arith)
and_digits_enough (suc x) y (suc n) zero hn hm = absurd (omega arith)
and_digits_enough (suc x) y (suc n) (suc m) hn hm =
    let rest = and_digits_enough (suc x / 2) (y / 2) n m (omega arith) (omega arith) in
    omega (arith, rest)

-- The lowest digit of `x & y`, and the rest.
bit_and_step : (x y : ℕ) → bit_and x y ≡ bit_and (x / 2) (y / 2) * 2 + min (x % 2) (y % 2)
bit_and_step zero y = omega (arith, bit_and-bitwise 0 y, bit_and-bitwise 0 (y / 2))
bit_and_step (suc x) y =
    let half = suc x / 2 in
    let same = and_digits_enough half (y / 2) x half (omega arith) (omega arith) in
    omega (arith, same, bit_and-bitwise half (y / 2), bit_and-bitwise (suc x) y)

bit_and-zero_below : (bound x : ℕ) → x ≤ bound → bit_and x 0 ≡ 0
bit_and-zero_below bound zero h = refl
bit_and-zero_below zero (suc x) h = absurd (omega arith)
bit_and-zero_below (suc bound) (suc x) h =
    let rest = bit_and-zero_below bound (suc x / 2) (omega arith) in
    omega (arith, rest, bit_and_step (suc x) 0)

pub bit_and-zero : (a : ℕ) → bit_and a 0 ≡ 0
bit_and-zero a = bit_and-zero_below a a (omega arith)

pub pow-pos : (k : ℕ) → 0 < 2 ^ k
pow-pos zero = omega arith
pow-pos (suc k) = omega (arith, pow-suc 2 k, pow-pos k)

mod_double : (a p : ℕ) → 0 < p → (a / 2 % p) * 2 + a % 2 ≡ a % (p * 2)
mod_double a p h = grind arith

-- A mask of `k` ones keeps the remainder by 2 ^ k.
pub bit_and-low : (k a : ℕ) → bit_and a (2 ^ k - 1) ≡ a % 2 ^ k
bit_and-low zero a = omega (arith, bit_and-zero a)
bit_and-low (suc k) a =
    let one : 0 < 2 ^ k = pow-pos k in
    let half : (2 ^ k * 2 - 1) / 2 ≡ 2 ^ k - 1 = omega arith in
    let odd : (2 ^ k * 2 - 1) % 2 ≡ 1 = omega arith in
    rw (pow-suc 2 k, bit_and_step a (2 ^ k * 2 - 1), half, odd, bit_and-low k (a / 2))
      (omega (arith, mod_double a (2 ^ k) one))

pow_mono : (k w : ℕ) → k ≤ w → 2 ^ k ≤ 2 ^ w
pow_mono zero w h = pow-pos w
pow_mono (suc k) zero h = absurd (omega arith)
pow_mono (suc k) (suc w) h = omega (arith, pow-suc 2 k, pow-suc 2 w, pow_mono k w (omega arith))

-- In a word of `w` bits, a mask with zeros in its `k` lowest bits rounds down to a multiple of 2 ^ k.
pub bit_and-high : (k w a : ℕ) → k ≤ w → a < 2 ^ w → bit_and a (2 ^ w - 2 ^ k) ≡ a - a % 2 ^ k
bit_and-high zero w a h lt = omega (arith, bit_and-low w a, mod-eq_of_lt lt)
bit_and-high (suc k) zero a h lt = absurd (omega arith)
bit_and-high (suc k) (suc w) a h lt =
    let order : 2 ^ k ≤ 2 ^ w = pow_mono k w (omega arith) in
    let half : (2 ^ w * 2 - 2 ^ k * 2) / 2 ≡ 2 ^ w - 2 ^ k = omega arith in
    let even : (2 ^ w * 2 - 2 ^ k * 2) % 2 ≡ 0 = omega arith in
    let top : a < 2 ^ w * 2 = rw (← pow-suc 2 w) lt in
    rw
      (
        pow-suc 2 k,
        pow-suc 2 w,
        bit_and_step a (2 ^ w * 2 - 2 ^ k * 2),
        half,
        even,
        bit_and-high k w (a / 2) (omega arith) (omega arith),
      )
      (omega (arith, mod_double a (2 ^ k) (pow-pos k)))
