-- ===== src/Protocol/Plain.antt =====
-- A byte list that does what the crate `bytes` documents of its buffers.
use recisdb_proxy_rs.Base.{
  ℕ, ◌*◌, ◌-◌, ◌^◌, ◌≡◌, refl, Option, none, some, List, ◌++◌, length, length-append, take, drop,
  take-append, drop-append, ltb, ltb_of_le, if◌then◌else◌, arith,
}
use recisdb_proxy_rs.Base.Bytes.{le_bytes, le_value}
use recisdb_proxy_rs.Base.Ints.{half32, half64, to_bits, of_bits}
use recisdb_proxy_rs.Protocol.Buf.{Buf, IsBuf}

-- A `get` of `k` bytes.
unfoldable pub first {ℓ} : {A : Type ℓ} → ℕ → (List ℕ → A) → List ℕ → Option (A × List ℕ)
first k value buf = if ltb (length buf) k then none else some (value (take k buf), drop k buf)

first_lem {ℓ} :
    {A : Type ℓ} (k : ℕ) (value : List ℕ → A) (bs rest : List ℕ)
    → length bs ≡ k
    → first k value (bs ++ rest) ≡ some (value bs, rest)
unfolding first
first_lem k value bs rest e =
    rw (ltb_of_le (length (bs ++ rest)) k (omega (arith, length-append bs rest, e)))
      (rw (← e, take-append bs rest, drop-append bs rest) refl)

abbrev pub plain : Buf
plain = record {
  put_u8 = λ x buf. buf ++ le_bytes 1 x;
  put_u16_le = λ x buf. buf ++ le_bytes 2 x;
  put_u32_le = λ x buf. buf ++ le_bytes 4 x;
  put_i32_le = λ z buf. buf ++ le_bytes 4 (to_bits (2 * half32) z);
  put_i64_le = λ z buf. buf ++ le_bytes 8 (to_bits (2 * half64) z);
  put_f32_le = λ x buf. buf ++ le_bytes 4 x;
  put_slice = λ s buf. buf ++ s;
  get_u8 = first 1 le_value;
  get_u16_le = first 2 le_value;
  get_u32_le = first 4 le_value;
  get_i32_le = first 4 (λ bs. of_bits half32 (le_value bs));
  get_i64_le = first 8 (λ bs. of_bits half64 (le_value bs));
  get_f32_le = first 4 le_value;
  copy_to_bytes = λ k. first k (λ bs. bs);
  capacity = 2 ^ 25 - 1;
}

pub plain-IsBuf : IsBuf plain
plain-IsBuf = record {
  put_u8_le = λ x buf. refl;
  put_u16_le_le = λ x buf. refl;
  put_u32_le_le = λ x buf. refl;
  put_i32_le_le = λ z buf. refl;
  put_i64_le_le = λ z buf. refl;
  put_f32_le_le = λ x buf. refl;
  put_slice_append = λ s buf. refl;
  get_u8_first = first_lem 1 le_value;
  get_u16_le_first = first_lem 2 le_value;
  get_u32_le_first = first_lem 4 le_value;
  get_i32_le_first = first_lem 4 (λ bs. of_bits half32 (le_value bs));
  get_i64_le_first = first_lem 8 (λ bs. of_bits half64 (le_value bs));
  get_f32_le_first = first_lem 4 le_value;
  copy_to_bytes_first = λ bs rest. first_lem (length bs) (λ l. l) bs rest refl;
  capacity_mebi = omega arith;
}
