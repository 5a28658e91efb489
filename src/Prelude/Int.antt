-- ===== src/Prelude/Int.antt =====
-- Signed integers, and the casts between `u64` and `i64`: `negsuc n` is -(n + 1).
use heimwatch.Prelude.Tests.{ltb, if◌then◌else◌}
use Prim.Native.Nat.{ℕ, zero, suc, ◌+◌, ◌-◌, ◌%◌, ◌/◌, ◌^◌}

pub data ℤ : Type 0 where
  pos : ℕ → ℤ
  negsuc : ℕ → ℤ

-- `n as i64` of a `u64`, and back.
abbrev pub as_i64 : ℕ → ℤ
as_i64 n = if ltb n (2 ^ 63) then pos n else negsuc (2 ^ 64 - 1 - n)

abbrev pub as_u64 : ℤ → ℕ
as_u64 (pos n) = n % 2 ^ 64
as_u64 (negsuc n) = 2 ^ 64 - 1 - n % 2 ^ 64

-- `a + b` of a release build on `i64`.
abbrev pub add_i64 : ℤ → ℤ → ℤ
add_i64 a b = as_i64 ((as_u64 a + as_u64 b) % 2 ^ 64)

abbrev negate : ℕ → ℤ
negate zero = pos 0
negate (suc n) = negsuc n

-- `a / d` by a positive `d`, towards zero.
abbrev pub div_i64 : ℤ → ℕ → ℤ
div_i64 (pos n) d = pos (n / d)
div_i64 (negsuc n) d = negate (suc n / d)
