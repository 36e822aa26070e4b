-- ===== src/Ts/Minimal.antt =====
-- recisdb-proxy/src/tuner/ts_parser.rs: the parser of the passive scanner. The loops of `feed` keep
-- what is left of the bytes, in place of an offset into them. The strings of the standard
-- library are a parameter (Text).
pub mod Tables
mod PanicFree
mod Aligned
mod Fuel
mod Tests
use Prim.Native.Nat.{bit_and}
use recisdb_proxy_rs.Base.{
  ℕ, zero, suc, ◌+◌, ◌/◌, Bool, true, false, not, ◌&&◌, ◌||◌, Option, none, some, List, [], ◌∷◌,
  ◌++◌, length, take, drop, ltb, leb, ◌==◌, if◌then◌else◌, ok,
}
use recisdb_proxy_rs.Ts.Access.{Parse, ◌>>=◌, index, sub_slice}
use recisdb_proxy_rs.Ts.Packet.{has_bits, pid_of}
use recisdb_proxy_rs.Ts.Psi.{length_of}
use recisdb_proxy_rs.Ts.Minimal.Tables.{
  Text, ParseResult, empty_result, parse_pat, parse_nit, parse_sdt,
}

pub record SectionBuffer : Type 0 where
  pub bytes : List ℕ
  pub expected_length : Option ℕ
  pub continuity_counter : Option ℕ

-- `section_buffers` by PID; one that is not there yet is the empty buffer.
pub record MinimalTsParser : Type 0 where
  pub section_buffers : ℕ → SectionBuffer
  pub result : ParseResult

unfoldable pub new : MinimalTsParser
unfolding empty_result
new = record {
  section_buffers = λ pid. record { bytes = []; expected_length = none; continuity_counter = none };
  result = empty_result;
}

unfoldable pub put_buffer : ℕ → SectionBuffer → MinimalTsParser → MinimalTsParser
put_buffer pid buffer p = record p {
  section_buffers = λ q. if q == pid then buffer else p.section_buffers q;
}

unfoldable pub parse_table : Text → ℕ → List ℕ → ParseResult → Parse ParseResult
unfolding parse_pat parse_nit parse_sdt
parse_table t pid section_data r =
    if pid == 0x0000
    then parse_pat section_data r
    else if pid == 0x0010
    then parse_nit t section_data r
    else if pid == 0x0011
    then parse_sdt t section_data r
    else ok r

-- `try_parse_section` behind the length of the section.
unfoldable pub take_section : Text → ℕ → ℕ → SectionBuffer → MinimalTsParser → Parse MinimalTsParser
unfolding parse_table put_buffer
take_section t pid total_length buffer p =
    if ltb (length buffer.bytes) total_length then ok p else (do
      section_data ← sub_slice buffer.bytes 0 total_length
      rest ← sub_slice buffer.bytes total_length (length buffer.bytes)
      result ← parse_table t pid section_data p.result
      ok (record (put_buffer pid (record buffer { bytes = rest }) p) { result = result }))

unfoldable pub try_parse_section : Text → ℕ → MinimalTsParser → Parse MinimalTsParser
unfolding take_section length_of
try_parse_section t pid p =
    let buffer = p.section_buffers pid in
    if ltb (length buffer.bytes) 3 then ok p else (do
      b₁ ← index buffer.bytes 1
      b₂ ← index buffer.bytes 2
      take_section t pid (3 + length_of b₁ b₂) buffer p)

-- The two halves of `process_payload`.
unfoldable pub start_section : Text → ℕ → List ℕ → ℕ → ℕ → MinimalTsParser → Parse MinimalTsParser
unfolding try_parse_section put_buffer
start_section t pid payload cc pointer p = if leb (length payload) (pointer + 1) then ok p else (do
  section_start ← sub_slice payload (pointer + 1) (length payload)
  try_parse_section t pid (
      put_buffer pid
        (record { bytes = section_start; expected_length = none; continuity_counter = some cc }) p))

unfoldable pub is_next : Option ℕ → ℕ → Bool
is_next none cc = true
is_next (some expected_cc) cc = cc == bit_and (expected_cc + 1) 0x0F

unfoldable pub continue_section : Text → ℕ → List ℕ → ℕ → MinimalTsParser → Parse MinimalTsParser
unfolding try_parse_section put_buffer is_next
continue_section t pid payload cc p =
    let buffer = p.section_buffers pid in
    if is_next buffer.continuity_counter cc
    then try_parse_section t pid (
        put_buffer pid
          (record buffer { bytes = buffer.bytes ++ payload; continuity_counter = some cc }) p)
    else ok (put_buffer pid (record buffer { bytes = []; expected_length = none }) p)

unfoldable pub process_payload :
    Text → ℕ → List ℕ → Bool → ℕ → MinimalTsParser → Parse MinimalTsParser
unfolding start_section continue_section
process_payload t pid payload true cc p =
    if length payload == 0
    then ok p
    else (do pointer ← index payload 0; start_section t pid payload cc pointer p)
process_payload t pid payload false cc p = continue_section t pid payload cc p

-- `None` where the source returns.
unfoldable pub payload_offset : List ℕ → ℕ → Parse (Option ℕ)
payload_offset packet adaptation_field =
    if adaptation_field == 1
    then ok (some 4)
    else if adaptation_field == 3
    then (if ltb (length packet) 5
        then ok none
        else (do adaptation_length ← index packet 4; ok (some (5 + adaptation_length))))
    else ok none

unfoldable pub process_at :
    Text → List ℕ → ℕ → Bool → ℕ → Option ℕ → MinimalTsParser → Parse MinimalTsParser
unfolding process_payload
process_at t packet pid start cc none p = ok p
process_at t packet pid start cc (some offset) p = if leb (length packet) offset then ok p else (do
  payload ← sub_slice packet offset (length packet)
  process_payload t pid payload start cc p)

unfoldable pub is_wanted : ℕ → Bool
is_wanted pid = pid == 0x0000 || pid == 0x0010 || pid == 0x0011

-- `process_packet` behind the sync byte.
unfoldable pub process_header : Text → List ℕ → ℕ → ℕ → ℕ → MinimalTsParser → Parse MinimalTsParser
unfolding has_bits pid_of payload_offset process_at is_wanted
process_header t packet b₁ b₂ b₃ p =
    let pid = pid_of b₁ b₂ in
    if has_bits b₁ 0x80 || not (bit_and (b₃ / 64) 0x03 == 0) || pid == 0x1FFF
    then ok p
    else if not (is_wanted pid)
    then ok p
    else (do
      offset ← payload_offset packet (bit_and (b₃ / 16) 0x03)
      process_at t packet pid (has_bits b₁ 0x40) (bit_and b₃ 0x0F) offset p)

unfoldable pub process_packet : Text → List ℕ → MinimalTsParser → Parse MinimalTsParser
unfolding process_header
process_packet t packet p = if ltb (length packet) 4 then ok p else (do
  b₀ ← index packet 0
  if not (b₀ == 0x47) then ok p else (do
    b₁ ← index packet 1
    b₂ ← index packet 2
    b₃ ← index packet 3
    process_header t packet b₁ b₂ b₃ p))

-- The first loop of `feed`: a byte each round.
unfoldable pub find_sync : ℕ → List ℕ → Parse (List ℕ)
find_sync zero bytes = ok bytes
find_sync (suc n) bytes =
    if length bytes == 0
    then ok bytes
    else (do b ← index bytes 0; if not (b == 0x47) then find_sync n (drop 1 bytes) else ok bytes)

-- The second loop: each round takes a byte or a packet, so the length of the data is fuel enough.
unfoldable pub feed_packets : Text → ℕ → List ℕ → MinimalTsParser → Parse MinimalTsParser
unfolding process_packet
feed_packets t zero bytes p = ok p
feed_packets t (suc n) bytes p = if ltb (length bytes) 188 then ok p else (do
  b ← index bytes 0
  if b == 0x47
      then (do
        packet ← sub_slice bytes 0 188
        p' ← process_packet t packet p
        feed_packets t n (drop 188 bytes) p')
      else feed_packets t n (drop 1 bytes) p)

unfoldable pub is_complete : MinimalTsParser → Bool
is_complete p = p.result.has_pat && (p.result.has_nit || p.result.has_sdt)

unfoldable pub feed : Text → List ℕ → MinimalTsParser → Parse (MinimalTsParser × Bool)
unfolding find_sync feed_packets is_complete
feed t bytes p = do
  found ← find_sync (length bytes) bytes
  p' ← feed_packets t (length bytes) found p
  ok (p', is_complete p')

unfoldable pub reset : MinimalTsParser → MinimalTsParser
unfolding new
reset p = new
