-- ===== src/Base/Words.antt =====
-- Unsigned integers of C: `uint_t` and `uint64_t` are taken to be 64 bits wide.
use Prim.Native.Nat.{ℕ, zero, suc, ◌+◌, ◌-◌, ◌*◌, ◌/◌, ◌%◌, ◌^◌, ◌≤◌, ◌<◌}
use mathlib.Core.Path.{◌≡◌}
use native.Mathlib.Nat.{mod-add-div}
use native.Mathlib.Omega.{arith}

abbrev pub IsByte : ℕ → Type 0
IsByte b = b < 256

abbrev pub IsU64 : ℕ → Type 0
IsU64 v = v < 2 ^ 64

-- `UINT_T_MAX`, the mark for "no value yet".
abbrev pub uint_t_max : ℕ
uint_t_max = 2 ^ 64 - 1

-- `a + b`, `a - b` and `a * b` on `uint64_t`.
abbrev pub add64 : ℕ → ℕ → ℕ
add64 a b = (a + b) % 2 ^ 64

abbrev pub sub64 : ℕ → ℕ → ℕ
sub64 a b = (a + 2 ^ 64 - b) % 2 ^ 64

abbrev pub mul64 : ℕ → ℕ → ℕ
mul64 a b = (a * b) % 2 ^ 64

-- Subtraction of a smaller number does not wrap.
pub sub64_le : (a b : ℕ) → IsU64 a → b ≤ a → sub64 a b ≡ a - b
sub64_le a b h k = omega arith

-- Products of 16-bit numbers have 32 bits.
pub mul_mono : (a b c : ℕ) → a ≤ c → a * b ≤ c * b
mul_mono a zero c h = omega arith
mul_mono a (suc b) c h = omega (arith, mul_mono a b c h)

pub mul_u16 : (a b : ℕ) → a < 2 ^ 16 → b < 2 ^ 16 → a * b < 2 ^ 32
mul_u16 a b h k = omega (arith, mul_mono a b (2 ^ 16) (omega arith))

pub div_le : (a b : ℕ) → 0 < b → a / b ≤ a
div_le a b h = omega (arith, mod-add-div a b, mul_mono 1 (a / b) b h)
