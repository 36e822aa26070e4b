-- ===== src/Base/Bits.antt =====
-- Bit operations of the source at variables: fields that do not overlap, and masks of low bits.
use Prim.Native.Nat.{
  ℕ, zero, suc, ◌+◌, ◌*◌, ◌/◌, ◌%◌, ◌≤◌, ◌<◌, min, max, bit_and, bit_or, digits, bit_and-bitwise,
  bit_or-bitwise,
}
use mathlib.Core.Path.{◌≡◌, refl}
use mathlib.Core.Bool.{Bool, true, ◌&&◌}
use native.Mathlib.Omega.{arith}
use recisdb_proxy_rs.Base.Tests.{◌==◌}

-- The recursion over binary digits stops at any bound of its first argument.
module _ (last : ℕ → ℕ) (both : ℕ → ℕ → ℕ) where
  digits-bound : (n m a b : ℕ) → a ≤ n → a ≤ m → digits last both n a b ≡ digits last both m a b
  digits-bound zero zero a b p q = refl
  digits-bound zero (suc m) zero b p q = refl
  digits-bound zero (suc m) (suc a) b p q = absurd (omega arith)
  digits-bound (suc n) zero zero b p q = refl
  digits-bound (suc n) zero (suc a) b p q = absurd (omega arith)
  digits-bound (suc n) (suc m) zero b p q = refl
  digits-bound (suc n) (suc m) (suc a) b p q =
      omega (arith, digits-bound n m (suc a / 2) (b / 2) (omega arith) (omega arith))

zero-bit_or : (b : ℕ) → bit_or 0 b ≡ b
zero-bit_or b = bit_or-bitwise 0 b

zero-bit_and : (b : ℕ) → bit_and 0 b ≡ 0
zero-bit_and b = bit_and-bitwise 0 b

-- The lowest digit of each operation, and the rest.
bit_or_digit : (a b : ℕ) → bit_or a b ≡ bit_or (a / 2) (b / 2) * 2 + max (a % 2) (b % 2)
bit_or_digit zero b = omega (arith, zero-bit_or b, zero-bit_or (b / 2))
bit_or_digit (suc a) b = omega (
  arith,
  bit_or-bitwise (suc a) b,
  bit_or-bitwise (suc a / 2) (b / 2),
  digits-bound (λ b. b) max a (suc a / 2) (suc a / 2) (b / 2) (omega arith) (omega arith),
)

bit_and_digit : (a b : ℕ) → bit_and a b ≡ bit_and (a / 2) (b / 2) * 2 + min (a % 2) (b % 2)
bit_and_digit zero b = omega (arith, zero-bit_and b, zero-bit_and (b / 2))
bit_and_digit (suc a) b = omega (
  arith,
  bit_and-bitwise (suc a) b,
  bit_and-bitwise (suc a / 2) (b / 2),
  digits-bound (λ b. zero) min a (suc a / 2) (suc a / 2) (b / 2) (omega arith) (omega arith),
)

bit_or_below : (n a : ℕ) → a ≤ n → bit_or a 0 ≡ a
bit_or_below n zero h = refl
bit_or_below zero (suc a) h = absurd (omega arith)
bit_or_below (suc n) (suc a) h =
    omega (arith, bit_or_digit (suc a) 0, bit_or_below n (suc a / 2) (omega arith))

bit_and_below : (n a : ℕ) → a ≤ n → bit_and a 0 ≡ 0
bit_and_below n zero h = refl
bit_and_below zero (suc a) h = absurd (omega arith)
bit_and_below (suc n) (suc a) h =
    omega (arith, bit_and_digit (suc a) 0, bit_and_below n (suc a / 2) (omega arith))

-- Four digits at a time.
bit_or_nibble : (x y : ℕ) → bit_or (x * 16) y ≡ bit_or x (y / 16) * 16 + y % 16
bit_or_nibble x y =
    let e : x * 16 / 2 / 2 / 2 / 2 ≡ x = omega arith in
    let z : y / 2 / 2 / 2 / 2 ≡ y / 16 = omega arith in
    let rest : bit_or (x * 16 / 2 / 2 / 2 / 2) (y / 2 / 2 / 2 / 2) ≡ bit_or x (y / 16) =
      rw (e, z) refl in
    omega (
      arith,
      bit_or_digit (x * 16) y,
      bit_or_digit (x * 16 / 2) (y / 2),
      bit_or_digit (x * 16 / 2 / 2) (y / 2 / 2),
      bit_or_digit (x * 16 / 2 / 2 / 2) (y / 2 / 2 / 2),
      rest,
    )

mask_nibble : (a m : ℕ) → bit_and a (m * 16 + 15) ≡ bit_and (a / 16) m * 16 + a % 16
mask_nibble a m =
    let n = m * 16 + 15 in
    let e : a / 2 / 2 / 2 / 2 ≡ a / 16 = omega arith in
    let z : n / 2 / 2 / 2 / 2 ≡ m = omega arith in
    let rest : bit_and (a / 2 / 2 / 2 / 2) (n / 2 / 2 / 2 / 2) ≡ bit_and (a / 16) m =
      rw (e, z) refl in
    omega (
      arith,
      bit_and_digit a n,
      bit_and_digit (a / 2) (n / 2),
      bit_and_digit (a / 2 / 2) (n / 2 / 2),
      bit_and_digit (a / 2 / 2 / 2) (n / 2 / 2 / 2),
      rest,
    )

-- A byte under a shifted number: `(x << 8) | y`.
pub bit_or_byte : (x y : ℕ) → y < 256 → bit_or (x * 256) y ≡ x * 256 + y
bit_or_byte x y h =
    let high : y / 16 / 16 ≡ 0 = omega arith in
    let rest : bit_or x (y / 16 / 16) ≡ x = rw high (bit_or_below x x (omega arith)) in
    let twice : bit_or (x * 16) (y / 16) ≡ x * 16 + y / 16 =
      omega (arith, bit_or_nibble x (y / 16), rest) in
    let wide : x * 256 ≡ x * 16 * 16 = omega arith in
    rw wide (omega (arith, bit_or_nibble (x * 16) y, twice))

pub mask_4 : (a : ℕ) → bit_and a 0x0F ≡ a % 16
mask_4 a = omega (arith, mask_nibble a 0, bit_and_below (a / 16) (a / 16) (omega arith))

pub mask_8 : (a : ℕ) → bit_and a 0xFF ≡ a % 256
mask_8 a = omega (arith, mask_nibble a 15, mask_4 (a / 16))

-- Over bytes, check every value by evaluation.
abbrev pub all_below : ℕ → (ℕ → Bool) → Bool
all_below zero p = true
all_below (suc n) p = p n && all_below n p

pub below_table :
    (n : ℕ) (f g : ℕ → ℕ) (x : ℕ) → all_below n (λ a. f a == g a) ≡ true → x < n → f x ≡ g x
below_table zero f g x h lt = absurd (omega arith)
below_table (suc n) f g x h lt = ground (arith, below_table n f g x)

mask_5_table : all_below 256 (λ a. bit_and a 0x1F == a % 32) ≡ true
mask_5_table = refl

pub mask_5 : (a : ℕ) → a < 256 → bit_and a 0x1F ≡ a % 32
mask_5 a h = below_table 256 (λ a. bit_and a 0x1F) (λ a. a % 32) a mask_5_table h

reserved_3_table : all_below 32 (λ a. bit_or 0xE0 a == 224 + a) ≡ true
reserved_3_table = refl

-- Three reserved bits over the high bits of a PID.
pub reserved_3 : (a : ℕ) → a < 32 → bit_or 0xE0 a ≡ 224 + a
reserved_3 a h = below_table 32 (λ a. bit_or 0xE0 a) (λ a. 224 + a) a reserved_3_table h

version_table : all_below 32 (λ v. bit_and (bit_or 0xC1 (v * 2) / 2) 0x1F == v) ≡ true
version_table = refl

-- A version between the reserved bits and the current/next bit.
pub version_field : (v : ℕ) → v < 32 → bit_and (bit_or 0xC1 (v * 2) / 2) 0x1F ≡ v
version_field v h =
    below_table 32 (λ v. bit_and (bit_or 0xC1 (v * 2) / 2) 0x1F) (λ v. v) v version_table h
