-- ===== src/Prelude/Int.antt =====
-- Go's int64: `pos n` is n and `negsuc n` is -(n + 1).
use mathlib.Core.Bool.{Bool, false}
use Prim.Native.Nat.{ℕ, suc, ◌+◌, ◌-◌, ◌^◌, ◌≤◌, ◌<◌, ◌%◌}
use mathlib.Core.Path.{◌≡◌, refl}
use native.Mathlib.Omega.{arith}
use sqlproxy.Prelude.Tests.{ltb, if◌then◌else◌}

pub data ℤ : Type 0 where
  pos : ℕ → ℤ
  negsuc : ℕ → ℤ

-- The integers that an int64 holds.
abbrev pub IsInt64 : ℤ → Type 0
IsInt64 (pos n) = n < 2 ^ 63
IsInt64 (negsuc n) = n < 2 ^ 63

-- uint64(i) and int64(w)
abbrev pub to_uint64 : ℤ → ℕ
to_uint64 (pos n) = n % 2 ^ 64
to_uint64 (negsuc n) = 2 ^ 64 - 1 - n % 2 ^ 64

abbrev pub to_int64 : ℕ → ℤ
to_int64 w = if ltb w (2 ^ 63) then pos w else negsuc (2 ^ 64 - 1 - w)

pub to_int64-to_uint64 : (i : ℤ) → IsInt64 i → to_int64 (to_uint64 i) ≡ i
to_int64-to_uint64 (pos n) h = ground arith
to_int64-to_uint64 (negsuc n) h = ground arith

pub to_uint64-lt : (i : ℤ) → to_uint64 i < 2 ^ 64
to_uint64-lt (pos n) = omega arith
to_uint64-lt (negsuc n) = omega arith

pub to_uint64-to_int64 : (w : ℕ) → w < 2 ^ 64 → to_uint64 (to_int64 w) ≡ w
to_uint64-to_int64 w h = ground arith

pub to_int64-IsInt64 : (w : ℕ) → w < 2 ^ 64 → IsInt64 (to_int64 w)
to_int64-IsInt64 w h = ground arith

-- i + n and i - n for a size n
unfoldable pub add_size : ℤ → ℕ → ℤ
add_size (pos a) n = pos (a + n)
add_size (negsuc a) n = if ltb a n then pos (n - suc a) else negsuc (a - n)

unfoldable pub sub_size : ℤ → ℕ → ℤ
sub_size (pos a) n = if ltb a n then negsuc (n - a - 1) else pos (a - n)
sub_size (negsuc a) n = negsuc (a + n)

-- i > n
unfoldable pub above : ℤ → ℕ → Bool
above (pos a) n = ltb n a
above (negsuc a) n = false

pub sub_size_pos : (a n : ℕ) → n ≤ a → sub_size (pos a) n ≡ pos (a - n)
unfolding sub_size
sub_size_pos a n h = ground arith

pub add_size_pos : (a n : ℕ) → add_size (pos a) n ≡ pos (a + n)
unfolding add_size
add_size_pos a n = refl
