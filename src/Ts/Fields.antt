-- ===== src/Ts/Fields.antt =====
-- The bit fields of packets, sections and tables, written and read back.
use Prim.Native.Nat.{bit_and, bit_or}
use recisdb_proxy_rs.Base.{
  ℕ, zero, suc, ◌+◌, ◌*◌, ◌/◌, ◌%◌, ◌≤◌, ◌<◌, ◌≡◌, refl, ap, true, List, [], ◌∷◌, ◌++◌, length,
  take, ◌==◌, arith,
}
use recisdb_proxy_rs.Base.Bits.{
  all_below, below_table, mask_5, mask_8, bit_or_byte, reserved_3, version_field,
}
use recisdb_proxy_rs.Ts.Packet.{has_bits, pid_of}
use recisdb_proxy_rs.Ts.Psi.{length_of, word_of}

pub take-all : (bytes : List ℕ) (n : ℕ) → length bytes ≤ n → take n bytes ≡ bytes
take-all [] zero h = refl
take-all [] (suc n) h = refl
take-all (b ∷ bs) zero h = absurd (omega arith)
take-all (b ∷ bs) (suc n) h = ap (λ l. b ∷ l) (take-all bs n (omega arith))

pub take-front : (xs ys : List ℕ) → take (length xs) (xs ++ ys) ≡ xs
take-front [] ys = refl
take-front (x ∷ xs) ys = ap (λ l. x ∷ l) (take-front xs ys)

section_length_table :
    all_below 256 (λ n. length_of (bit_or 0xB0 (bit_and (n / 256) 0x0F)) (bit_and n 0xFF) == n)
    ≡ true
unfolding length_of
section_length_table = refl

pub section_length_field :
    (n : ℕ) → n < 256 → length_of (bit_or 0xB0 (bit_and (n / 256) 0x0F)) (bit_and n 0xFF) ≡ n
section_length_field n h =
    below_table 256 (λ n. length_of (bit_or 0xB0 (bit_and (n / 256) 0x0F)) (bit_and n 0xFF))
      (λ n. n) n section_length_table h

syntax_table :
    all_below 256 (λ n. bit_and (bit_or 0xB0 (bit_and (n / 256) 0x0F)) 0x80 == 128) ≡ true
syntax_table = refl

pub syntax_field : (n : ℕ) → n < 256 → has_bits (bit_or 0xB0 (bit_and (n / 256) 0x0F)) 0x80 ≡ true
unfolding has_bits
syntax_field n h =
    let set : bit_and (bit_or 0xB0 (bit_and (n / 256) 0x0F)) 0x80 ≡ 128 =
      below_table 256 (λ n. bit_and (bit_or 0xB0 (bit_and (n / 256) 0x0F)) 0x80) (λ n. 128) n
        syntax_table h in
    rw set refl

pub word_of-bytes : (n : ℕ) → n < 65536 → word_of (n / 256 % 256) (bit_and n 0xFF) ≡ n
unfolding word_of
word_of-bytes n h =
    omega (arith, bit_or_byte (n / 256 % 256) (bit_and n 0xFF) (omega (arith, mask_8 n)), mask_8 n)

pub pid_of-bytes :
    (pid : ℕ)
    → pid < 8192
    → pid_of (bit_or 0xE0 (bit_and (pid / 256) 0x1F)) (bit_and pid 0xFF) ≡ pid
unfolding pid_of
pid_of-bytes pid h =
    let high : bit_and (pid / 256) 0x1F ≡ pid / 256 =
      omega (arith, mask_5 (pid / 256) (omega arith)) in
    let marked : bit_or 0xE0 (pid / 256) ≡ 224 + pid / 256 = reserved_3 (pid / 256) (omega arith) in
    let bare : bit_and (224 + pid / 256) 0x1F ≡ pid / 256 =
      omega (arith, mask_5 (224 + pid / 256) (omega arith)) in
    rw high (
      rw marked (
        rw bare (
          omega (
            arith,
            bit_or_byte (pid / 256) (bit_and pid 0xFF) (omega (arith, mask_8 pid)),
            mask_8 pid,
          ))))

pub version_of : (v : ℕ) → v < 32 → bit_and (bit_or 0xC1 (v * 2 % 256) / 2) 0x1F ≡ v
version_of v h = let small : v * 2 % 256 ≡ v * 2 = omega arith in rw small (version_field v h)
