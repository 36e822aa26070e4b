-- ===== src/Protocol/Buf.antt =====
-- The crate `bytes`, which the codec writes payloads with (`BytesMut`, `BufMut`) and reads them with
-- (`Bytes`, `Buf`). It is not part of the repository, so its operations are a parameter of the codec.
-- A buffer is the bytes that it holds; what is left to read, for a `Bytes`. What the standard library
-- says of `Vec::with_capacity` stands here too, for the codec's one call of it.
use recisdb_proxy_rs.Base.{ℕ, ◌*◌, ◌≤◌, ◌≡◌, Option, some, List, ◌++◌, length}
use recisdb_proxy_rs.Base.Bytes.{le_bytes, le_value}
use recisdb_proxy_rs.Base.Ints.{ℤ, half32, half64, to_bits, of_bits}

-- A `get` that panics, since too few bytes remain, is `none`.
pub record Buf : Type 0 where
  pub put_u8 : ℕ → List ℕ → List ℕ
  pub put_u16_le : ℕ → List ℕ → List ℕ
  pub put_u32_le : ℕ → List ℕ → List ℕ
  pub put_i32_le : ℤ → List ℕ → List ℕ
  pub put_i64_le : ℤ → List ℕ → List ℕ
  pub put_f32_le : ℕ → List ℕ → List ℕ
  pub put_slice : List ℕ → List ℕ → List ℕ
  pub get_u8 : List ℕ → Option (ℕ × List ℕ)
  pub get_u16_le : List ℕ → Option (ℕ × List ℕ)
  pub get_u32_le : List ℕ → Option (ℕ × List ℕ)
  pub get_i32_le : List ℕ → Option (ℤ × List ℕ)
  pub get_i64_le : List ℕ → Option (ℤ × List ℕ)
  pub get_f32_le : List ℕ → Option (ℕ × List ℕ)
  pub copy_to_bytes : ℕ → List ℕ → Option (List ℕ × List ℕ)
  -- The most channels that `Vec::with_capacity` reserves: it panics when they take more bytes than an
  -- `isize` counts.
  pub capacity : ℕ

-- What the crate documents: a `put` appends the little-endian bytes of its value, a `get` reads its
-- value from the first bytes and advances past them.
pub record IsBuf (b : Buf) : Type 0 where
  pub put_u8_le : (x : ℕ) (buf : List ℕ) → b.put_u8 x buf ≡ buf ++ le_bytes 1 x
  pub put_u16_le_le : (x : ℕ) (buf : List ℕ) → b.put_u16_le x buf ≡ buf ++ le_bytes 2 x
  pub put_u32_le_le : (x : ℕ) (buf : List ℕ) → b.put_u32_le x buf ≡ buf ++ le_bytes 4 x
  pub put_i32_le_le :
      (z : ℤ) (buf : List ℕ) → b.put_i32_le z buf ≡ buf ++ le_bytes 4 (to_bits (2 * half32) z)
  pub put_i64_le_le :
      (z : ℤ) (buf : List ℕ) → b.put_i64_le z buf ≡ buf ++ le_bytes 8 (to_bits (2 * half64) z)
  pub put_f32_le_le : (x : ℕ) (buf : List ℕ) → b.put_f32_le x buf ≡ buf ++ le_bytes 4 x
  pub put_slice_append : (s buf : List ℕ) → b.put_slice s buf ≡ buf ++ s
  pub get_u8_first :
      (bs rest : List ℕ) → length bs ≡ 1 → b.get_u8 (bs ++ rest) ≡ some (le_value bs, rest)
  pub get_u16_le_first :
      (bs rest : List ℕ) → length bs ≡ 2 → b.get_u16_le (bs ++ rest) ≡ some (le_value bs, rest)
  pub get_u32_le_first :
      (bs rest : List ℕ) → length bs ≡ 4 → b.get_u32_le (bs ++ rest) ≡ some (le_value bs, rest)
  pub get_i32_le_first :
      (bs rest : List ℕ)
      → length bs ≡ 4
      → b.get_i32_le (bs ++ rest) ≡ some (of_bits half32 (le_value bs), rest)
  pub get_i64_le_first :
      (bs rest : List ℕ)
      → length bs ≡ 8
      → b.get_i64_le (bs ++ rest) ≡ some (of_bits half64 (le_value bs), rest)
  pub get_f32_le_first :
      (bs rest : List ℕ) → length bs ≡ 4 → b.get_f32_le (bs ++ rest) ≡ some (le_value bs, rest)
  pub copy_to_bytes_first :
      (bs rest : List ℕ) → b.copy_to_bytes (length bs) (bs ++ rest) ≡ some (bs, rest)
  -- A channel takes 64 bytes on a 32-bit target, so 16 Mi channels do not.
  pub capacity_mebi : 16 * 1024 * 1024 ≤ b.capacity
