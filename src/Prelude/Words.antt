-- ===== src/Prelude/Words.antt =====
-- Go's unsigned words as native numbers: every result is wrapped by `%`.
use Prim.Native.Nat.{
  ℕ, zero, suc, ◌+◌, ◌-◌, ◌*◌, ◌/◌, ◌%◌, ◌^◌, ◌≤◌, ◌<◌, max, digits, bit_or, bit_xor,
  bit_or-bitwise,
}
use mathlib.Core.Path.{◌≡◌, refl, ap}
use native.Mathlib.Nat.{pow-suc}
use native.Mathlib.Omega.{arith}

abbrev pub u32 : ℕ → ℕ
u32 n = n % 2 ^ 32

abbrev pub u64 : ℕ → ℕ
u64 n = n % 2 ^ 64

-- a + b and a - b of two uint32
abbrev pub add32 : ℕ → ℕ → ℕ
add32 a b = u32 (a + b)

abbrev pub sub32 : ℕ → ℕ → ℕ
sub32 a b = u32 (a + 2 ^ 32 - u32 b)

abbrev pub xor32 : ℕ → ℕ → ℕ
xor32 a b = u32 (bit_xor a b)

shift_once_more : (k hi : ℕ) → hi * 2 ^ k * 2 ≡ hi * 2 ^ suc k
shift_once_more k hi = omega (arith, ap (λ (w : ℕ). hi * w) (pow-suc 2 k))

or_digits : (n k q r a : ℕ) → a ≡ q * 2 ^ k → r < 2 ^ k → a ≤ n → digits (λ b. b) max n a r ≡ a + r
or_digits zero k q r a e fits le = omega arith
or_digits (suc n) k q r zero e fits le = omega arith
or_digits (suc n) zero q r (suc a) e fits le =
    omega (
      arith,
      or_digits n 0 (suc a / 2) (r / 2) (suc a / 2) (omega arith) (omega arith) (omega arith),
    )
or_digits (suc n) (suc k) q r (suc a) e fits le = omega (
  arith,
  shift_once_more k q,
  or_digits n k q (r / 2) (suc a / 2) (omega (arith, shift_once_more k q))
      (omega (arith, pow-suc 2 k)) (omega arith),
)

-- `(hi << k) | lo` is a sum where `lo` fits `k` bits.
pub bit_or_shifted : (k hi lo : ℕ) → lo < 2 ^ k → bit_or (hi * 2 ^ k) lo ≡ hi * 2 ^ k + lo
bit_or_shifted k hi lo fits =
    simp bit_or-bitwise (or_digits (hi * 2 ^ k) k hi lo (hi * 2 ^ k) refl fits (omega arith))
