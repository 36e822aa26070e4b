-- ===== src/Ts/Tables/Streams.antt =====
-- The elementary streams of a PMT, written as the standard lays them out and read by `parse`.
use Prim.Native.Nat.{bit_and, bit_or}
use recisdb_proxy_rs.Base.{
  ℕ, zero, suc, ◌+◌, ◌-◌, ◌/◌, ◌≤◌, ◌<◌, ◌≡◌, refl, ap, subst, true, false, List, [], ◌∷◌, ◌++◌,
  length, length-append, drop, ltb, leb, ◌&&◌, ◌==◌, arith, All, ok,
}
use recisdb_proxy_rs.Base.Bits.{all_below, below_table, mask_8, bit_or_byte}
use recisdb_proxy_rs.Ts.Access.{sub_slice}
use recisdb_proxy_rs.Ts.Psi.{length_of}
use recisdb_proxy_rs.Ts.Tables.{PmtStream, parse_streams}
use recisdb_proxy_rs.Ts.Fields.{pid_of-bytes, take-front}
use recisdb_proxy_rs.Ts.Collector.Reassembly.{drop-skipped}

-- A stream's entry: three and four reserved bits, all set.
abbrev pub stream_bytes : PmtStream → List ℕ
stream_bytes s =
    s.stream_type
    ∷ bit_or 0xE0 (bit_and (s.elementary_pid / 256) 0x1F)
    ∷ bit_and s.elementary_pid 0xFF
    ∷ bit_or 0xF0 (length s.descriptors / 256)
    ∷ bit_and (length s.descriptors) 0xFF
    ∷ s.descriptors

abbrev pub loop_bytes : List PmtStream → List ℕ
loop_bytes [] = []
loop_bytes (s ∷ ss) = stream_bytes s ++ loop_bytes ss

-- The PID has 13 bits and the length of the descriptors 12.
abbrev pub IsEncodable : PmtStream → Type 0
IsEncodable s = (s.elementary_pid < 8192) × (length s.descriptors < 4096)

high_table : all_below 16 (λ h. bit_and (bit_or 0xF0 h) 0x0F == h) ≡ true
high_table = refl

length_of-bytes : (n : ℕ) → n < 4096 → length_of (bit_or 0xF0 (n / 256)) (bit_and n 0xFF) ≡ n
unfolding length_of
length_of-bytes n h =
    let high : bit_and (bit_or 0xF0 (n / 256)) 0x0F ≡ n / 256 =
      below_table 16 (λ h. bit_and (bit_or 0xF0 h) 0x0F) (λ h. h) (n / 256) high_table
        (omega arith) in
    rw high
      (omega (arith, bit_or_byte (n / 256) (bit_and n 0xFF) (omega (arith, mask_8 n)), mask_8 n))

five-behind :
    (b₀ b₁ b₂ b₃ b₄ : ℕ) (descriptors later : List ℕ)
    → sub_slice (b₀ ∷ b₁ ∷ b₂ ∷ b₃ ∷ b₄ ∷ descriptors ++ later) 5 (5 + length descriptors)
      ≡ ok descriptors
five-behind b₀ b₁ b₂ b₃ b₄ descriptors later =
    let n = length descriptors in
    let bytes = b₀ ∷ b₁ ∷ b₂ ∷ b₃ ∷ b₄ ∷ descriptors ++ later in
    let inside : (leb 5 (5 + n) && leb (5 + n) (length bytes)) ≡ true =
      ground (arith, length-append descriptors later) in
    let whole : 5 + n - 5 ≡ n = omega arith in
    rw (inside, whole) (ap ok (take-front descriptors later))

drop-five :
    (b₀ b₁ b₂ b₃ b₄ : ℕ) (descriptors later : List ℕ)
    → drop (5 + length descriptors) (b₀ ∷ b₁ ∷ b₂ ∷ b₃ ∷ b₄ ∷ descriptors ++ later) ≡ later
drop-five b₀ b₁ b₂ b₃ b₄ descriptors later =
    let front = b₀ ∷ b₁ ∷ b₂ ∷ b₃ ∷ b₄ ∷ descriptors in
    let n : length front ≡ 5 + length descriptors = omega arith in
    subst (λ m. drop m (front ++ later) ≡ later) n (drop-skipped front later)

-- One round of the loop.
stream-read :
    (s : PmtStream) (later : List ℕ) (ss : List PmtStream) (n : ℕ)
    → IsEncodable s
    → parse_streams n later ≡ ok ss
    → parse_streams (suc n) (stream_bytes s ++ later) ≡ ok (s ∷ ss)
unfolding parse_streams
stream-read s later ss n h e =
    let bytes = stream_bytes s ++ later in
    let some_bytes : ltb (length bytes) 5 ≡ false = ground arith in
    let inside : ltb (length bytes) (5 + length s.descriptors) ≡ false =
      ground (arith, length-append s.descriptors later) in
    rw some_bytes (
      rw (length_of-bytes (length s.descriptors) h.1) (
        rw (pid_of-bytes s.elementary_pid h.0) (
          rw inside (
            rw (five-behind _ _ _ _ _ s.descriptors later)
              (rw (drop-five _ _ _ _ _ s.descriptors later) (rw e refl))))))

-- The loop reads back any list of streams whose fields fit their bits, with as much fuel as there are
-- bytes, or more.
pub parse_streams-loop_bytes :
    (ss : List PmtStream) (n : ℕ)
    → All IsEncodable ss
    → length (loop_bytes ss) ≤ n
    → parse_streams n (loop_bytes ss) ≡ ok ss
unfolding parse_streams
parse_streams-loop_bytes [] zero h k = refl
parse_streams-loop_bytes [] (suc n) h k = refl
parse_streams-loop_bytes (s ∷ ss) zero h k = absurd (omega arith)
parse_streams-loop_bytes (s ∷ ss) (suc n) h k =
    stream-read s (loop_bytes ss) ss n h.0 (
      parse_streams-loop_bytes ss n h.1
        (omega (arith, length-append s.descriptors (loop_bytes ss))))
