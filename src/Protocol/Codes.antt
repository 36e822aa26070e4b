-- ===== src/Protocol/Codes.antt =====
-- `Codes n w p a`: the step `w` appends bytes, at least `n` of them, from which the reader `p` gets
-- `a` back and stops right behind them. The rules build it along an encoder and its decoder.
use recisdb_proxy_rs.Base.{
  ℕ, ◌+◌, ◌*◌, ◌≤◌, ◌<◌, ◌≡◌, refl, ap, ◌∙◌, Bool, true, false, Option, some, List, [], ◌++◌,
  append_assoc, append-nil, length, length-append, ltb_of_le, subst, arith, ok,
}
use recisdb_proxy_rs.Base.Bytes.{le_bytes, le_value, le_value-le_bytes}
use recisdb_proxy_rs.Base.Ints.{
  ℤ, half32, half64, to_bits, of_bits, Fits, of_bits-to_bits32, of_bits-to_bits64, to_bits-lt32,
  to_bits-lt64,
}
use recisdb_proxy_rs.Protocol.Buf.{Buf, IsBuf}
use recisdb_proxy_rs.Protocol.Reader.{Reader, ◌>>=◌, need, reserving, pure, get, result}
use recisdb_proxy_rs.Protocol.Encode.{Writer, ◌▹◌, skip, flag, put_bool}
use recisdb_proxy_rs.Protocol.Decode.{get_bool}

pub record Codes {ℓ} {A : Type ℓ} (n : ℕ) (w : Writer) (p : Reader A) (a : A) : Type ℓ where
  pub bytes : List ℕ
  pub at_least : n ≤ length bytes
  pub writes : (buf : List ℕ) → w buf ≡ buf ++ bytes
  pub reads : (rest : List ℕ) → p (bytes ++ rest) ≡ ok (a, rest)

module _ {ℓ κ} {A : Type ℓ} {B : Type κ} where
  -- One field after another.
  pub Codes-bind :
      {n m : ℕ} {w v : Writer} {p : Reader A} {a : A} (f : A → Reader B) {c : B}
      → Codes n w p a
      → Codes m v (f a) c
      → Codes (n + m) (w ▹ v) (p >>= f) c
  unfolding ◌▹◌ ◌>>=◌
  Codes-bind f x y = record {
    bytes = x.bytes ++ y.bytes;
    at_least = omega (arith, length-append x.bytes y.bytes, x.at_least, y.at_least);
    writes = λ buf. rw (x.writes buf, y.writes (buf ++ x.bytes)) (append_assoc buf x.bytes y.bytes);
    reads =
        λ rest. rw (append_assoc x.bytes y.bytes rest, x.reads (y.bytes ++ rest)) (y.reads rest);
  }

  -- The last field: what is computed from it writes nothing.
  pub Codes-last :
      {n : ℕ} {w : Writer} {p : Reader A} {a : A} (f : A → B)
      → Codes n w p a
      → Codes n w (p >>= λ x. pure (f x)) (f a)
  unfolding ◌>>=◌ pure
  Codes-last f x = record {
    bytes = x.bytes;
    at_least = x.at_least;
    writes = x.writes;
    reads = λ rest. rw (x.reads rest);
  }

  -- A step that only computes with what was read.
  pub Codes-then :
      {n : ℕ} {w : Writer} {p : Reader A} {a : A} (f : A → Reader B) {c : B}
      → Codes n w p a
      → ((rest : List ℕ) → f a rest ≡ ok (c, rest))
      → Codes n w (p >>= f) c
  unfolding ◌>>=◌
  Codes-then f x h = record {
    bytes = x.bytes;
    at_least = x.at_least;
    writes = x.writes;
    reads = λ rest. rw (x.reads rest) (h rest);
  }

module _ {ℓ} {A : Type ℓ} where
  pub Codes-need :
      {n m : ℕ} {w : Writer} {p : Reader A} {a : A} → Codes n w p a → m ≤ n → Codes m w (need m p) a
  unfolding need
  Codes-need {m = m} x h = record {
    bytes = x.bytes;
    at_least = omega (arith, x.at_least, h);
    writes = x.writes;
    reads = λ rest.
        rw
          (ltb_of_le (length (x.bytes ++ rest)) m
            (omega (arith, length-append x.bytes rest, x.at_least, h)))
          (x.reads rest);
  }

  pub Codes-weaken :
      {n m : ℕ} {w : Writer} {p : Reader A} {a : A} → Codes n w p a → m ≤ n → Codes m w p a
  Codes-weaken x h = record {
    bytes = x.bytes;
    at_least = omega (arith, x.at_least, h);
    writes = x.writes;
    reads = x.reads;
  }

  pub Codes-reserving :
      {n : ℕ} {w : Writer} {p : Reader A} {a : A} (capacity count : ℕ)
      → Codes n w p a
      → count ≤ capacity
      → Codes n w (reserving capacity count p) a
  unfolding reserving
  Codes-reserving capacity count x h = record {
    bytes = x.bytes;
    at_least = x.at_least;
    writes = x.writes;
    reads = λ rest. rw (ltb_of_le capacity count h) (x.reads rest);
  }

  -- A guard at the start of a message.
  pub Codes-guard :
      {n m : ℕ} {w : Writer} {p : Reader A} {a : A} → Codes n w p a → m ≤ n → Codes 0 w (need m p) a
  Codes-guard x h = Codes-weaken (Codes-need x h) (omega arith)

  pub Codes-skip : (a : A) → Codes 0 skip (pure a) a
  unfolding skip pure
  Codes-skip a = record {
    bytes = [];
    at_least = omega arith;
    writes = λ buf. rw (append-nil buf);
    reads = λ rest. refl;
  }

  -- The whole payload, as a decoder sees it.
  pub Codes-result :
      {n : ℕ} {w : Writer} {p : Reader A} {a : A} → Codes n w p a → result (p (w [])) ≡ ok a
  Codes-result {p = p} x = rw (x.writes [], ← append-nil x.bytes, x.reads []) refl

  of_get-Codes :
      (w : Writer) (g : List ℕ → Option (A × List ℕ)) (bs : List ℕ) (v : A)
      → ((buf : List ℕ) → w buf ≡ buf ++ bs)
      → ((rest : List ℕ) → g (bs ++ rest) ≡ some (v, rest))
      → Codes (length bs) w (get g) v
  unfolding get
  of_get-Codes w g bs v hw hr = record {
    bytes = bs;
    at_least = omega arith;
    writes = hw;
    reads = λ rest. rw (hr rest) refl;
  }

-- A reader that reads back `v`, where the value is `a` by an equation.
Codes-eq {ℓ} :
    {A : Type ℓ} {n : ℕ} {w : Writer} {p : Reader A} {v a : A}
    → Codes n w p v
    → v ≡ a
    → Codes n w p a
Codes-eq {n = n} {w = w} {p = p} x e = subst (Codes n w p) e x

module _ (b : Buf) (laws : IsBuf b) where
  pub u8-Codes : (x : ℕ) → x < 256 → Codes 1 (b.put_u8 x) (get b.get_u8) x
  u8-Codes x h =
      let bs = le_bytes 1 x in
      Codes-eq
        (of_get-Codes (b.put_u8 x) b.get_u8 bs (le_value bs) (laws.put_u8_le x)
          (λ rest. laws.get_u8_first bs rest refl))
        (le_value-le_bytes 1 x h)

  pub u16-Codes : (x : ℕ) → x < 65536 → Codes 2 (b.put_u16_le x) (get b.get_u16_le) x
  u16-Codes x h =
      let bs = le_bytes 2 x in
      Codes-eq
        (of_get-Codes (b.put_u16_le x) b.get_u16_le bs (le_value bs) (laws.put_u16_le_le x)
          (λ rest. laws.get_u16_le_first bs rest refl))
        (le_value-le_bytes 2 x h)

  pub u32-Codes : (x : ℕ) → x < 4294967296 → Codes 4 (b.put_u32_le x) (get b.get_u32_le) x
  u32-Codes x h =
      let bs = le_bytes 4 x in
      Codes-eq
        (of_get-Codes (b.put_u32_le x) b.get_u32_le bs (le_value bs) (laws.put_u32_le_le x)
          (λ rest. laws.get_u32_le_first bs rest refl))
        (le_value-le_bytes 4 x h)

  pub f32-Codes : (x : ℕ) → x < 4294967296 → Codes 4 (b.put_f32_le x) (get b.get_f32_le) x
  f32-Codes x h =
      let bs = le_bytes 4 x in
      Codes-eq
        (of_get-Codes (b.put_f32_le x) b.get_f32_le bs (le_value bs) (laws.put_f32_le_le x)
          (λ rest. laws.get_f32_le_first bs rest refl))
        (le_value-le_bytes 4 x h)

  pub i32-Codes : (z : ℤ) → Fits half32 z → Codes 4 (b.put_i32_le z) (get b.get_i32_le) z
  i32-Codes z h =
      let bs = le_bytes 4 (to_bits (2 * half32) z) in
      Codes-eq
        (of_get-Codes (b.put_i32_le z) b.get_i32_le bs (of_bits half32 (le_value bs))
          (laws.put_i32_le_le z) (λ rest. laws.get_i32_le_first bs rest refl))
        (ap (of_bits half32) (le_value-le_bytes 4 _ (to_bits-lt32 z)) ∙ of_bits-to_bits32 z h)

  pub i64-Codes : (z : ℤ) → Fits half64 z → Codes 8 (b.put_i64_le z) (get b.get_i64_le) z
  i64-Codes z h =
      let bs = le_bytes 8 (to_bits (2 * half64) z) in
      Codes-eq
        (of_get-Codes (b.put_i64_le z) b.get_i64_le bs (of_bits half64 (le_value bs))
          (laws.put_i64_le_le z) (λ rest. laws.get_i64_le_first bs rest refl))
        (ap (of_bits half64) (le_value-le_bytes 8 _ (to_bits-lt64 z)) ∙ of_bits-to_bits64 z h)

  pub slice-Codes :
      (s : List ℕ) → Codes (length s) (b.put_slice s) (get (b.copy_to_bytes (length s))) s
  slice-Codes s =
      of_get-Codes (b.put_slice s) (b.copy_to_bytes (length s)) s s (laws.put_slice_append s)
        (laws.copy_to_bytes_first s)

  pub bool-Codes : (x : Bool) → Codes 1 (put_bool b x) (get_bool b) x
  unfolding put_bool flag get_bool
  bool-Codes true = Codes-last _ (u8-Codes 1 (omega arith))
  bool-Codes false = Codes-last _ (u8-Codes 0 (omega arith))
