-- ===== src/Base/Bits.antt =====
-- `x & mask` as arithmetic, for a mask that is one run of ones, at every width.
use Prim.Native.Nat.{
  ℕ, zero, suc, ◌+◌, ◌*◌, ◌/◌, ◌%◌, ◌^◌, ◌≤◌, ◌<◌, min, bit_and, digits, bit_and-bitwise,
}
use mathlib.Core.Path.{◌≡◌, refl, sym, ap, ◌∙◌}
use native.Mathlib.Nat.{pow-succ', div-div-eq-div-mul, one-le-pow}
use native.Mathlib.Omega.{arith}

-- The digits of `x & y`, lowest first, for at most `fuel` digits.
abbrev masked : ℕ → ℕ → ℕ → ℕ
masked fuel x y = digits (λ _. zero) min fuel x y

masked_0 : (fuel y : ℕ) → masked fuel 0 y ≡ 0
masked_0 zero y = refl
masked_0 (suc fuel) y = refl

-- Two amounts of fuel that are both enough give one result.
masked_enough : (f x y g : ℕ) → (x ≤ f) × (x ≤ g) → masked g x y ≡ masked f x y
masked_enough f zero y g h = rw (masked_0 f y, masked_0 g y)
masked_enough zero (suc x) y g h = absurd (omega (arith, h.0))
masked_enough (suc f) (suc x) y zero h = absurd (omega (arith, h.1))
masked_enough (suc f) (suc x) y (suc g) h =
    let halves = masked_enough f (suc x / 2) (y / 2) g (omega (arith, h.0), omega (arith, h.1)) in
    omega arith

-- A number and its half, each with the fuel that `bit_and` gives it.
half_masked : (x y : ℕ) → masked x (suc x / 2) (y / 2) ≡ bit_and (suc x / 2) (y / 2)
half_masked x y =
    masked_enough (suc x / 2) (suc x / 2) (y / 2) x (omega arith, omega arith)
    ∙ sym (bit_and-bitwise (suc x / 2) (y / 2))

-- The lowest digit apart from the others.
lowest_apart : (x y : ℕ) → bit_and x y ≡ 2 * bit_and (x / 2) (y / 2) + min (x % 2) (y % 2)
lowest_apart zero y =
    let whole = bit_and-bitwise 0 y in let half = bit_and-bitwise 0 (y / 2) in omega arith
lowest_apart (suc x) y =
    let whole = bit_and-bitwise (suc x) y in let half = half_masked x y in omega arith

no_mask : (bound x : ℕ) → x < bound + 1 → bit_and x 0 ≡ 0
no_mask bound zero h = refl
no_mask zero (suc x) h = absurd (omega arith)
no_mask (suc bound) (suc x) h =
    let rest = no_mask bound (suc x / 2) (omega arith) in
    let step = lowest_apart (suc x) 0 in omega arith

-- `k` ones.
abbrev ones : ℕ → ℕ
ones zero = 0
ones (suc k) = 2 * ones k + 1

mod_double : (k a : ℕ) → a % 2 ^ suc k ≡ a / 2 % 2 ^ k * 2 + a % 2
mod_double k a = rw (pow-succ' 2 k) (grind (arith, one-le-pow k 2))

-- `a & ((1 << k) - 1)` is the remainder by `2 ^ k`.
pub bit_and-ones : (k a : ℕ) → bit_and a (ones k) ≡ a % 2 ^ k
bit_and-ones zero a = omega (arith, no_mask a a (omega arith))
bit_and-ones (suc k) a = rw mod_double (
    omega (
      arith,
      lowest_apart a (ones (suc k)),
      bit_and-ones k (a / 2),
      ap (bit_and (a / 2)) (ones_half k),
    ))
  where
    ones_half : (k : ℕ) → (2 * ones k + 1) / 2 ≡ ones k
    ones_half k = omega arith

double_step : (k m : ℕ) → m * 2 ^ suc k ≡ 2 * (m * 2 ^ k)
double_step k m = rw (pow-succ' 2 k) (omega arith)

-- `a & mask` for a run of `n` ones that starts at bit `k`.
pub bit_and-run : (k n a : ℕ) → bit_and a (ones n * 2 ^ k) ≡ a / 2 ^ k % 2 ^ n * 2 ^ k
bit_and-run zero n a =
    rw (one-run (ones n), one-run (a / 2 ^ 0 % 2 ^ n), div_one a) (bit_and-ones n a)
  where
    one-run : (m : ℕ) → m * 2 ^ 0 ≡ m
    one-run m = omega arith

    div_one : (m : ℕ) → m / 2 ^ 0 ≡ m
    div_one m = omega arith
bit_and-run (suc k) n a =
    rw (double_step k (ones n), halve k a, double_step k (a / 2 / 2 ^ k % 2 ^ n))
      (omega (
        arith,
        lowest_apart a (2 * (ones n * 2 ^ k)),
        bit_and-run k n (a / 2),
        ap (bit_and (a / 2)) (half_run (ones n * 2 ^ k)),
      ))
  where
    half_run : (m : ℕ) → 2 * m / 2 ≡ m
    half_run m = omega arith

    halve : (k a : ℕ) → a / 2 ^ suc k ≡ a / 2 / 2 ^ k
    halve k a = rw (pow-succ' 2 k, div-div-eq-div-mul a 2 (2 ^ k))
