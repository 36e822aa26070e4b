-- ===== src/Base/Ints.antt =====
-- Signed machine integers. `negsuc n` is -(n + 1); `to_bits k` is the two's complement pattern
-- in a word of modulus k, and `of_bits k` the integer that a pattern stands for.
use Prim.Native.Nat.{ℕ, ◌-◌, ◌*◌, ◌%◌, ◌<◌}
use mathlib.Core.Path.{◌≡◌}
use native.Mathlib.Omega.{arith}
use recisdb_proxy_rs.Base.Tests.{ltb, if◌then◌else◌}

pub data ℤ : Type 0 where
  pos : ℕ → ℤ
  negsuc : ℕ → ℤ

abbrev pub to_bits : ℕ → ℤ → ℕ
to_bits k (pos n) = n % k
to_bits k (negsuc n) = k - 1 - n % k

abbrev pub of_bits : ℕ → ℕ → ℤ
of_bits half w = if ltb w half then pos w else negsuc (2 * half - w - 1)

-- The integers of a word with 2 * half values.
abbrev pub Fits : ℕ → ℤ → Type 0
Fits half (pos n) = n < half
Fits half (negsuc n) = n < half

abbrev pub half32 : ℕ
half32 = 2147483648

abbrev pub half64 : ℕ
half64 = 9223372036854775808

pub of_bits-to_bits32 : (z : ℤ) → Fits half32 z → of_bits half32 (to_bits (2 * half32) z) ≡ z
of_bits-to_bits32 (pos n) h = ground arith
of_bits-to_bits32 (negsuc n) h = ground arith

pub of_bits-to_bits64 : (z : ℤ) → Fits half64 z → of_bits half64 (to_bits (2 * half64) z) ≡ z
of_bits-to_bits64 (pos n) h = ground arith
of_bits-to_bits64 (negsuc n) h = ground arith

pub to_bits-lt32 : (z : ℤ) → to_bits (2 * half32) z < 2 * half32
to_bits-lt32 (pos n) = omega arith
to_bits-lt32 (negsuc n) = omega arith

pub to_bits-lt64 : (z : ℤ) → to_bits (2 * half64) z < 2 * half64
to_bits-lt64 (pos n) = omega arith
to_bits-lt64 (negsuc n) = omega arith
