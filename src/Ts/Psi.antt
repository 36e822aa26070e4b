-- ===== src/Ts/Psi.antt =====
-- recisdb-proxy/src/ts_analyzer/psi.rs: section headers and the CRC.
use Prim.Native.Nat.{bit_and, bit_or, bit_xor}
use recisdb_proxy_rs.Base.{
  ℕ, zero, suc, ◌+◌, ◌-◌, ◌*◌, ◌/◌, ◌%◌, ◌^◌, Bool, true, false, List, [], ◌∷◌, length, take, ltb,
  leb, ◌==◌, if◌then◌else◌, ok, err,
}
use recisdb_proxy_rs.Ts.Access.{
  section_too_short, section_length_too_small, incomplete_section, no_extended_header, no_data,
  Parse, ◌>>=◌, index, sub_slice,
}
use recisdb_proxy_rs.Ts.Packet.{has_bits}

pub record PsiHeader : Type 0 where
  pub table_id : ℕ
  pub section_syntax_indicator : Bool
  pub section_length : ℕ
  pub table_id_extension : ℕ
  pub version_number : ℕ
  pub current_next_indicator : Bool
  pub section_number : ℕ
  pub last_section_number : ℕ

pub record PsiSection : Type 0 where
  pub header : PsiHeader
  pub body : List ℕ
  pub crc32 : ℕ

-- The 12 bits of a length in two bytes.
unfoldable pub length_of : ℕ → ℕ → ℕ
length_of b₁ b₂ = bit_or (bit_and b₁ 0x0F * 256) b₂

-- Two bytes, big end first.
unfoldable pub word_of : ℕ → ℕ → ℕ
word_of b₁ b₂ = bit_or (b₁ * 256) b₂

unfoldable pub long_header : List ℕ → ℕ → ℕ → Parse PsiHeader
unfolding word_of has_bits
long_header bytes table_id section_length =
    if ltb (length bytes) 8 then err no_extended_header else (do
      b₃ ← index bytes 3
      b₄ ← index bytes 4
      b₅ ← index bytes 5
      b₆ ← index bytes 6
      b₇ ← index bytes 7
      ok (record {
        table_id = table_id;
        section_syntax_indicator = true;
        section_length = section_length;
        table_id_extension = word_of b₃ b₄;
        version_number = bit_and (b₅ / 2) 0x1F;
        current_next_indicator = has_bits b₅ 0x01;
        section_number = b₆;
        last_section_number = b₇;
      }))

unfoldable pub short_header : ℕ → ℕ → PsiHeader
short_header table_id section_length = record {
  table_id = table_id;
  section_syntax_indicator = false;
  section_length = section_length;
  table_id_extension = 0;
  version_number = 0;
  current_next_indicator = true;
  section_number = 0;
  last_section_number = 0;
}

-- The CRC field, the last four bytes.
unfoldable pub parse_crc : List ℕ → ℕ → Parse ℕ
parse_crc bytes offset = do
  c₀ ← index bytes offset
  c₁ ← index bytes (offset + 1)
  c₂ ← index bytes (offset + 2)
  c₃ ← index bytes (offset + 3)
  ok (bit_or (bit_or (bit_or (c₀ * 2 ^ 24) (c₁ * 2 ^ 16)) (c₂ * 2 ^ 8)) c₃)

-- What follows the two length guards, at `total_length`.
unfoldable pub parse_section : List ℕ → PsiHeader → ℕ → Parse PsiSection
parse_section bytes header total_length =
    let data_start = if header.section_syntax_indicator then 8 else 3 in
    let data_end = total_length - 4 in
    if leb data_end data_start then err no_data else (do
      body ← sub_slice bytes data_start data_end
      crc32 ← parse_crc bytes data_end
      ok (record { header = header; body = body; crc32 = crc32 }))

unfoldable pub parse_header : List ℕ → Bool → ℕ → ℕ → Parse PsiHeader
parse_header bytes true table_id section_length = long_header bytes table_id section_length
parse_header bytes false table_id section_length = ok (short_header table_id section_length)

-- What follows the first three bytes.
unfoldable pub parse_rest : List ℕ → ℕ → Bool → ℕ → Parse PsiSection
parse_rest bytes table_id syntax section_length =
    if ltb section_length 5
    then err section_length_too_small
    else if ltb (length bytes) (3 + section_length)
    then err incomplete_section
    else (do
      header ← parse_header bytes syntax table_id section_length
      parse_section bytes header (3 + section_length))

unfoldable pub parse : List ℕ → Parse PsiSection
unfolding length_of has_bits
parse bytes = if ltb (length bytes) 3 then err section_too_short else (do
  table_id ← index bytes 0
  b₁ ← index bytes 1
  b₂ ← index bytes 2
  parse_rest bytes table_id (has_bits b₁ 0x80) (length_of b₁ b₂))

-- One entry of the lookup table: eight shifts.
unfoldable pub crc_shifts : ℕ → ℕ → ℕ
crc_shifts zero crc = crc
crc_shifts (suc n) crc = crc_shifts n (
    if bit_and crc 0x80000000 == 0 then crc * 2 % 2 ^ 32 else bit_xor (crc * 2 % 2 ^ 32) 0x04C11DB7)

unfoldable pub crc_from : ℕ → List ℕ → ℕ
unfolding crc_shifts
crc_from crc [] = crc
crc_from crc (byte ∷ bytes) =
    crc_from (bit_xor (crc * 256 % 2 ^ 32) (crc_shifts 8 (bit_xor (crc / 2 ^ 24) byte * 2 ^ 24)))
      bytes

unfoldable pub crc32_mpeg2 : List ℕ → ℕ
unfolding crc_from
crc32_mpeg2 bytes = crc_from 0xFFFFFFFF bytes

unfoldable pub verify_crc : PsiSection → List ℕ → Bool
verify_crc s full =
    let total_length = 3 + s.header.section_length in
    if ltb (length full) total_length
    then false
    else crc32_mpeg2 (take (total_length - 4) full) == s.crc32
