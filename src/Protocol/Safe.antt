-- ===== src/Protocol/Safe.antt =====
-- `Safe n p`: the reader `p` does not panic on a buffer of at least `n` bytes. The rules follow the
-- guards of the decoders.
use recisdb_proxy_rs.Base.{
  ℕ, ◌+◌, ◌≤◌, ◌≡◌, ◌≢◌, refl, Bool, true, false, Option, some, List, ◌++◌, length, take, drop,
  length-take, length-drop, take-append-drop, Bool-cases, ltb, le_of_ltb, if◌then◌else◌, arith, ok,
  err, panicked, and_then, subst, inl, inr,
}
use recisdb_proxy_rs.Base.Bytes.{le_value}
use recisdb_proxy_rs.Base.Ints.{half32, half64, of_bits}
use recisdb_proxy_rs.Protocol.Error.{ProtocolError, Result}
use recisdb_proxy_rs.Protocol.Buf.{Buf, IsBuf}
use recisdb_proxy_rs.Protocol.Reader.{Reader, ◌>>=◌, need, pure, fail, get}
use recisdb_proxy_rs.Protocol.Decode.{get_bool}

pub record Safe {ℓ} {A : Type ℓ} (n : ℕ) (p : Reader A) : Type ℓ where
  pub safe : (buf : List ℕ) → n ≤ length buf → p buf ≢ panicked

-- A `get` of `k` bytes returns on a buffer that has them, and advances by `k`.
pub record Gets {ℓ} {A : Type ℓ} (k : ℕ) (g : List ℕ → Option (A × List ℕ)) : Type ℓ where
  pub gets : (buf : List ℕ) → k ≤ length buf → (a : A) × (g buf ≡ some (a, drop k buf))

module _ {ℓ} {A : Type ℓ} where
  pub Safe-pure : {n : ℕ} (a : A) → Safe n (pure a)
  unfolding pure
  Safe-pure a = record { safe = λ buf h e. cc }

  pub Safe-fail : {n : ℕ} (e : ProtocolError) → Safe n (fail {A = A} e)
  unfolding fail
  Safe-fail e = record { safe = λ buf h e. cc }

  pub Safe-if :
      {n : ℕ} {p q : Reader A} (t : Bool) → Safe n p → Safe n q → Safe n (if t then p else q)
  Safe-if true x y = x
  Safe-if false x y = y

  pub Safe-weaken : {n m : ℕ} {p : Reader A} → Safe n p → n ≤ m → Safe m p
  Safe-weaken x h = record { safe = λ buf k. x.safe buf (omega arith) }

  -- Behind a guard the bytes that it asks for are there.
  pub Safe-need : {n m : ℕ} {p : Reader A} → Safe m p → Safe n (need m p)
  unfolding need
  Safe-need {m = m} x = record {
    safe = λ buf h. elim (Bool-cases (ltb (length buf) m)) [
      | inl short ↦ rw short (λ e. cc)
      | inr long ↦ rw long (x.safe buf (le_of_ltb (length buf) m long))
    ];
  }

  pub Safe-get_last : {k : ℕ} {g : List ℕ → Option (A × List ℕ)} → Gets k g → Safe k (get g)
  unfolding get
  Safe-get_last x = record { safe = λ buf h. let (a, e) = x.gets buf h in rw e (λ e'. cc) }

module _ {ℓ κ} {A : Type ℓ} {B : Type κ} where
  pub Safe-bind :
      {n : ℕ} {p : Reader A} (f : A → Reader B)
      → Safe n p
      → ((a : A) → Safe 0 (f a))
      → Safe n (p >>= f)
  unfolding ◌>>=◌
  Safe-bind {p = p} f x y = record { safe = λ buf h. go (p buf) (x.safe buf h) }
    where
      go : (r : Result (A × List ℕ)) → r ≢ panicked → and_then r (λ s. f s.0 s.1) ≢ panicked
      go (ok s) h = (y s.0).safe s.1 (omega arith)
      go (err e) h = λ e'. cc
      go panicked h = λ e'. h refl

  pub Safe-get :
      {n k : ℕ} {g : List ℕ → Option (A × List ℕ)} (f : A → Reader B)
      → Gets k g
      → ((a : A) → Safe n (f a))
      → Safe (k + n) (get g >>= f)
  unfolding ◌>>=◌ get
  Safe-get {n = n} {k = k} f x y = record {
    safe = λ buf h.
        let (a, e) = x.gets buf (omega arith) in
        rw e ((y a).safe (drop k buf) (omega (arith, length-drop k buf)));
  }

module _ (b : Buf) (laws : IsBuf b) where
  split_at : (k : ℕ) (buf : List ℕ) → k ≤ length buf → length (take k buf) ≡ k
  split_at k buf h = omega (arith, length-take k buf)

  Gets-law {ℓ} :
      {A : Type ℓ} (k : ℕ) (g : List ℕ → Option (A × List ℕ)) (value : List ℕ → A)
      → ((bs rest : List ℕ) → length bs ≡ k → g (bs ++ rest) ≡ some (value bs, rest))
      → Gets k g
  Gets-law k g value law = record {
    gets = λ buf h. (
      value (take k buf),
      subst (λ l. g l ≡ some (value (take k buf), drop k buf)) (take-append-drop k buf)
          (law (take k buf) (drop k buf) (split_at k buf h)),
    );
  }

  pub u8-Gets : Gets 1 b.get_u8
  u8-Gets = Gets-law 1 b.get_u8 le_value laws.get_u8_first

  pub u16-Gets : Gets 2 b.get_u16_le
  u16-Gets = Gets-law 2 b.get_u16_le le_value laws.get_u16_le_first

  pub u32-Gets : Gets 4 b.get_u32_le
  u32-Gets = Gets-law 4 b.get_u32_le le_value laws.get_u32_le_first

  pub f32-Gets : Gets 4 b.get_f32_le
  f32-Gets = Gets-law 4 b.get_f32_le le_value laws.get_f32_le_first

  pub i32-Gets : Gets 4 b.get_i32_le
  i32-Gets = Gets-law 4 b.get_i32_le (λ bs. of_bits half32 (le_value bs)) laws.get_i32_le_first

  pub i64-Gets : Gets 8 b.get_i64_le
  i64-Gets = Gets-law 8 b.get_i64_le (λ bs. of_bits half64 (le_value bs)) laws.get_i64_le_first

  pub copy-Gets : (k : ℕ) → Gets k (b.copy_to_bytes k)
  copy-Gets k =
      Gets-law k (b.copy_to_bytes k) (λ bs. bs)
        (λ bs rest e.
          subst (λ n. b.copy_to_bytes n (bs ++ rest) ≡ some (bs, rest)) e
            (laws.copy_to_bytes_first bs rest))

  pub bool-Safe : Safe 1 (get_bool b)
  unfolding get_bool
  bool-Safe = Safe-get {n = 0} _ u8-Gets (λ a. Safe-pure _)

  -- A flag, and what follows it.
  pub Safe-bool {ℓ} :
      {B : Type ℓ} {n : ℕ} (f : Bool → Reader B)
      → ((x : Bool) → Safe n (f x))
      → Safe (1 + n) (get_bool b >>= f)
  unfolding get_bool ◌>>=◌ get pure
  Safe-bool f y = record {
    safe = λ buf h.
        let (a, e) = u8-Gets.gets buf (omega arith) in
        rw e ((y _).safe (drop 1 buf) (omega (arith, length-drop 1 buf)));
  }
