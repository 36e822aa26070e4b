-- ===== src/Ts/Tests.antt =====
-- Packets and sections by hand.
use recisdb_proxy_rs.Base.{
  ℕ, ◌<◌, ◌≡◌, refl, true, false, Option, none, some, List, [], ◌∷◌, length, arith, ok,
}
use recisdb_proxy_rs.Ts.Packet
use recisdb_proxy_rs.Ts.Packet.{
  TsPacket, header_of, pid_of, has_bits, parse_bytes, parse_fields, parse_payload,
  has_adaptation_field, has_payload,
}
use recisdb_proxy_rs.Ts.Psi.{length_of}
use recisdb_proxy_rs.Ts.Collector
use recisdb_proxy_rs.Ts.Collector.{add_data, get_section}
use recisdb_proxy_rs.Ts.Collector.Reassembly.{feed, feed-section, feed-short_start}
use recisdb_proxy_rs.Ts.Filter
use recisdb_proxy_rs.Ts.Tables.{PatTable, PmtStream, parse_streams}
use recisdb_proxy_rs.Ts.Tables.Streams.{loop_bytes, parse_streams-loop_bytes}
use recisdb_proxy_rs.Ts.Filter.Table.{packet_table, rewritten_pat-table}
use recisdb_proxy_rs.Ts.Filter.{TsServiceFilter, build_rewritten_pat, padding, process_pat_packet}
use recisdb_proxy_rs.Ts.Filter.Panics.{process_pat_packet-panics}

-- An adaptation field that claims more bytes than the packet has.
abbrev long_field : List ℕ
long_field = 0x47 ∷ 0x41 ∷ 0x00 ∷ 0x30 ∷ 0xFF ∷ 0x10 ∷ padding 182

-- A packet of the PAT whose section has four bytes behind its length.
abbrev small_pat : List ℕ
small_pat = 0x47 ∷ 0x40 ∷ 0x00 ∷ 0x10 ∷ 0x00 ∷ 0x00 ∷ 0xB0 ∷ 0x04 ∷ padding 180

abbrev small_pat_packet : TsPacket
small_pat_packet = record {
  header = header_of 0x40 0x00 0x10;
  adaptation_field = none;
  payload = 0x00 ∷ 0x00 ∷ 0xB0 ∷ 0x04 ∷ padding 180;
}

small_pat_parses : Packet.parse small_pat ≡ ok small_pat_packet
unfolding Packet.parse parse_bytes parse_fields parse_payload has_adaptation_field has_payload
    padding
small_pat_parses = refl

small_pat_starts : small_pat_packet.header.payload_unit_start ≡ true
unfolding header_of has_bits
small_pat_starts = refl

four : length_of 0xB0 0x04 ≡ 4
unfolding length_of
four = refl

padding_180 : length (padding 180) ≡ 180
unfolding padding
padding_180 = refl

process_pat_packet-panics_example : process_pat_packet small_pat (Filter.new 1024) ≡ none
process_pat_packet-panics_example =
    process_pat_packet-panics (Filter.new 1024) small_pat small_pat_packet [] 0x00 0xB0 0x04
      (padding 180) small_pat_parses small_pat_starts refl (omega (arith, four))
      (omega (arith, four, padding_180))

-- A section of eight bytes in three packets.
feed-section_example :
    get_section (
      feed 15
        ((3 ∷ 4 ∷ []) ∷ (5 ∷ 0xFF ∷ []) ∷ [])
        (add_data (1 ∷ 9 ∷ 0x00 ∷ 0xB0 ∷ 0x05 ∷ 1 ∷ 2 ∷ []) 15 true Collector.new).0)
    ≡ some (0x00 ∷ 0xB0 ∷ 0x05 ∷ 1 ∷ 2 ∷ 3 ∷ 4 ∷ 5 ∷ [])
unfolding length_of
feed-section_example =
    feed-section Collector.new (9 ∷ []) 0x00 0xB0 0x05 (1 ∷ 2 ∷ [])
      ((3 ∷ 4 ∷ []) ∷ (5 ∷ 0xFF ∷ []) ∷ []) 15 (omega arith)

no_length : Collector.new.expected_length ≡ none
unfolding Collector.new
no_length = refl

-- The same section with two bytes in its first packet.
feed-short_start_example :
    get_section (
      feed 15
        ((0x05 ∷ 1 ∷ 2 ∷ 3 ∷ 4 ∷ 5 ∷ []) ∷ [])
        (add_data (0 ∷ 0x00 ∷ 0xB0 ∷ []) 15 true Collector.new).0)
    ≡ none
feed-short_start_example =
    feed-short_start Collector.new [] (0x00 ∷ 0xB0 ∷ []) ((0x05 ∷ 1 ∷ 2 ∷ 3 ∷ 4 ∷ 5 ∷ []) ∷ []) 15
      no_length (omega arith) (omega arith)

-- A table of two services and the network, for a filter that has found the first one.
abbrev two_services : PatTable
two_services = record {
  transport_stream_id = 0x7FE0;
  version_number = 5;
  programs =
      record { program_number = 1024; pid = 0x01F0 }
      ∷ record { program_number = 1025; pid = 0x02F0 }
      ∷ [];
  nit_pid = some 0x0010;
}

abbrev tracking : TsServiceFilter
tracking = record {
  target_sid = 1024;
  allowed_pids = Filter.always_pass_pids;
  pmt_pid = some 0x01F0;
  pat_collector = Collector.new;
  pmt_collector = Collector.new;
  pat_version = none;
  pmt_version = none;
  rewritten_pat_packets = [];
  pat_cc = 3;
  ready = false;
}

nit_below : (n : ℕ) → ◌≡◌ {A = Option ℕ} (some 0x0010) (some n) → n < 8192
nit_below n e = ground arith

rewritten_pat-table_example :
    packet_table (build_rewritten_pat two_services tracking).rewritten_pat_packets Collector.new
    ≡ ok (record {
      transport_stream_id = 0x7FE0;
      version_number = 5;
      programs = record { program_number = 1024; pid = 0x01F0 } ∷ [];
      nit_pid = some 0x0010;
    })
rewritten_pat-table_example =
    rewritten_pat-table tracking two_services 0x01F0 Collector.new refl (omega arith) (omega arith)
      (omega arith) nit_below (omega arith) (omega arith)

abbrev two_streams : List PmtStream
two_streams =
    record { stream_type = 0x02; elementary_pid = 0x0111; descriptors = 0x52 ∷ 0x01 ∷ 0x00 ∷ [] }
    ∷ record { stream_type = 0x0F; elementary_pid = 0x0112; descriptors = [] }
    ∷ []

parse_streams-loop_bytes_example : parse_streams 13 (loop_bytes two_streams) ≡ ok two_streams
parse_streams-loop_bytes_example =
    parse_streams-loop_bytes two_streams 13
      ((omega arith, omega arith), ((omega arith, omega arith), tt)) (omega arith)
