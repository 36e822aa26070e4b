-- ===== src/Ts/Packet.antt =====
-- recisdb-proxy/src/ts_analyzer/packet.rs: packets of 188 bytes.
use Prim.Native.Nat.{bit_and, bit_or}
use recisdb_proxy_rs.Base.{
  ℕ, ◌+◌, ◌*◌, ◌/◌, ◌^◌, Bool, false, not, ◌&&◌, Option, none, some, List, [], length, ltb, leb,
  ◌==◌, if◌then◌else◌, ok, err,
}
use recisdb_proxy_rs.Ts.Access.{packet_too_short, invalid_sync_byte, Parse, ◌>>=◌, index, sub_slice}

abbrev pub ts_packet_size : ℕ
ts_packet_size = 188

abbrev pub sync_byte : ℕ
sync_byte = 0x47

pub record TsHeader : Type 0 where
  pub transport_error : Bool
  pub payload_unit_start : Bool
  pub transport_priority : Bool
  pub pid : ℕ
  pub scrambling_control : ℕ
  pub adaptation_field_control : ℕ
  pub continuity_counter : ℕ

-- `x & mask != 0`.
unfoldable pub has_bits : ℕ → ℕ → Bool
has_bits x mask = not (bit_and x mask == 0)

unfoldable pub has_adaptation_field : TsHeader → Bool
unfolding has_bits
has_adaptation_field h = has_bits h.adaptation_field_control 0x02

unfoldable pub has_payload : TsHeader → Bool
unfolding has_bits
has_payload h = has_bits h.adaptation_field_control 0x01

unfoldable pub is_scrambled : TsHeader → Bool
is_scrambled h = not (h.scrambling_control == 0)

pub record AdaptationField : Type 0 where
  pub len : ℕ
  pub discontinuity : Bool
  pub random_access : Bool
  pub es_priority : Bool
  pub pcr_flag : Bool
  pub opcr_flag : Bool
  pub splicing_point_flag : Bool
  pub transport_private_data_flag : Bool
  pub adaptation_extension_flag : Bool
  pub pcr : Option ℕ

pub record TsPacket : Type 0 where
  pub header : TsHeader
  pub adaptation_field : Option AdaptationField
  pub payload : List ℕ

-- The 13 bits of a packet identifier in two bytes.
unfoldable pub pid_of : ℕ → ℕ → ℕ
pid_of b₁ b₂ = bit_or (bit_and b₁ 0x1F * 256) b₂

unfoldable pub header_of : ℕ → ℕ → ℕ → TsHeader
unfolding pid_of has_bits
header_of b₁ b₂ b₃ = record {
  transport_error = has_bits b₁ 0x80;
  payload_unit_start = has_bits b₁ 0x40;
  transport_priority = has_bits b₁ 0x20;
  pid = pid_of b₁ b₂;
  scrambling_control = bit_and (b₃ / 64) 0x03;
  adaptation_field_control = bit_and (b₃ / 16) 0x03;
  continuity_counter = bit_and b₃ 0x0F;
}

-- `AdaptationField { length, ..Default::default() }`.
unfoldable pub empty_field : ℕ → AdaptationField
empty_field len = record {
  len = len;
  discontinuity = false;
  random_access = false;
  es_priority = false;
  pcr_flag = false;
  opcr_flag = false;
  splicing_point_flag = false;
  transport_private_data_flag = false;
  adaptation_extension_flag = false;
  pcr = none;
}

unfoldable pub flags_field : ℕ → ℕ → Option ℕ → AdaptationField
unfolding has_bits
flags_field len flags pcr = record {
  len = len;
  discontinuity = has_bits flags 0x80;
  random_access = has_bits flags 0x40;
  es_priority = has_bits flags 0x20;
  pcr_flag = has_bits flags 0x10;
  opcr_flag = has_bits flags 0x08;
  splicing_point_flag = has_bits flags 0x04;
  transport_private_data_flag = has_bits flags 0x02;
  adaptation_extension_flag = has_bits flags 0x01;
  pcr = pcr;
}

-- The program clock reference: 33 bits in units of 300, and 9 bits.
unfoldable pub pcr_of : ℕ → ℕ → ℕ → ℕ → ℕ → ℕ → ℕ
pcr_of b₆ b₇ b₈ b₉ b₁₀ b₁₁ =
    bit_or (bit_or (bit_or (bit_or (b₆ * 2 ^ 25) (b₇ * 2 ^ 17)) (b₈ * 2 ^ 9)) (b₉ * 2)) (b₁₀ / 128)
      * 300
    + bit_or (bit_and b₁₀ 0x01 * 256) b₁₁

unfoldable pub parse_pcr : List ℕ → Parse (Option ℕ)
parse_pcr bytes = do
  b₆ ← index bytes 6
  b₇ ← index bytes 7
  b₈ ← index bytes 8
  b₉ ← index bytes 9
  b₁₀ ← index bytes 10
  b₁₁ ← index bytes 11
  ok (some (pcr_of b₆ b₇ b₈ b₉ b₁₀ b₁₁))

unfoldable pub parse_adaptation : List ℕ → ℕ → Parse (Option AdaptationField)
unfolding has_bits
parse_adaptation bytes af_length =
    if ltb 0 af_length && ltb 5 (length bytes)
    then (do
      flags ← index bytes 5
      pcr ←
          if has_bits flags 0x10 && leb 6 af_length && leb 12 (length bytes)
          then parse_pcr bytes
          else ok none
      ok (some (flags_field af_length flags pcr)))
    else ok (some (empty_field af_length))

unfoldable pub parse_payload : TsHeader → List ℕ → ℕ → Parse (List ℕ)
parse_payload header bytes offset =
    if has_payload header && ltb offset ts_packet_size
    then sub_slice bytes offset ts_packet_size
    else ok []

-- The rest of `parse`, behind the two guards.
unfoldable pub parse_fields : TsHeader → List ℕ → Parse TsPacket
parse_fields header bytes =
    if has_adaptation_field header
    then (do
      af_length ← index bytes 4
      field ← parse_adaptation bytes af_length
      payload ← parse_payload header bytes (5 + af_length)
      ok (record { header = header; adaptation_field = field; payload = payload }))
    else (do
      payload ← parse_payload header bytes 4
      ok (record { header = header; adaptation_field = none; payload = payload }))

unfoldable pub parse_bytes : List ℕ → ℕ → Parse TsPacket
unfolding header_of
parse_bytes bytes b₀ =
    if b₀ == sync_byte
    then (do
      b₁ ← index bytes 1
      b₂ ← index bytes 2
      b₃ ← index bytes 3
      parse_fields (header_of b₁ b₂ b₃) bytes)
    else err invalid_sync_byte

unfoldable pub parse : List ℕ → Parse TsPacket
parse bytes =
    if ltb (length bytes) ts_packet_size
    then err packet_too_short
    else (do b₀ ← index bytes 0; parse_bytes bytes b₀)
