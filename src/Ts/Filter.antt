-- ===== src/Ts/Filter.antt =====
-- recisdb-proxy/src/ts_analyzer/service_filter.rs: the filter that lets one service through. A hash
-- set of PIDs is its test of membership; `none` stands for a panic.
pub mod Panics
pub mod Rewritten
pub mod Table
use Prim.Native.Nat.{bit_and, bit_or}
use recisdb_proxy_rs.Base.{
  ℕ, zero, suc, ◌+◌, ◌-◌, ◌*◌, ◌/◌, ◌%◌, ◌^◌, Bool, true, false, ◌||◌, Option, none, some, List, [],
  ◌∷◌, ◌++◌, length, take, drop, leb, ◌==◌, if◌then◌else◌, ok, err, panicked,
}
use recisdb_proxy_rs.Ts.Packet.{TsPacket, ts_packet_size, sync_byte, pid_of}
use recisdb_proxy_rs.Ts.Packet
use recisdb_proxy_rs.Ts.Psi.{crc32_mpeg2}
use recisdb_proxy_rs.Ts.Psi
use recisdb_proxy_rs.Ts.Collector.{SectionCollector, add_data, get_section}
use recisdb_proxy_rs.Ts.Collector
use recisdb_proxy_rs.Ts.Tables.{PatTable, PmtStream, PmtTable, find_program, parse_pat, parse_pmt}

abbrev pub Pids : Type 0
Pids = ℕ → Bool

abbrev pub insert : ℕ → Pids → Pids
insert pid pids q = (q == pid) || pids q

-- ALWAYS_PASS_PIDS, in a set that was empty.
unfoldable pub always_pass_pids : Pids
always_pass_pids q =
    q == 0x0000 || q == 0x0001 || q == 0x0010 || q == 0x0011 || q == 0x0012 || q == 0x0014

pub record TsServiceFilter : Type 0 where
  pub target_sid : ℕ
  pub allowed_pids : Pids
  pub pmt_pid : Option ℕ
  pub pat_collector : SectionCollector
  pub pmt_collector : SectionCollector
  pub pat_version : Option ℕ
  pub pmt_version : Option ℕ
  pub rewritten_pat_packets : List ℕ
  pub pat_cc : ℕ
  pub ready : Bool

unfoldable pub new : ℕ → TsServiceFilter
unfolding always_pass_pids
new sid = record {
  target_sid = sid;
  allowed_pids = always_pass_pids;
  pmt_pid = none;
  pat_collector = Collector.new;
  pmt_collector = Collector.new;
  pat_version = none;
  pmt_version = none;
  rewritten_pat_packets = [];
  pat_cc = 0;
  ready = false;
}

unfoldable pub reset : TsServiceFilter → TsServiceFilter
unfolding always_pass_pids
reset f = record {
  target_sid = f.target_sid;
  allowed_pids = always_pass_pids;
  pmt_pid = none;
  pat_collector = Collector.clear f.pat_collector;
  pmt_collector = Collector.clear f.pmt_collector;
  pat_version = none;
  pmt_version = none;
  rewritten_pat_packets = [];
  pat_cc = 0;
  ready = false;
}

unfoldable pub set_target_sid : ℕ → TsServiceFilter → TsServiceFilter
set_target_sid sid f = reset (record f { target_sid = sid })

-- `option == Some(n)`.
unfoldable pub holds : Option ℕ → ℕ → Bool
holds none n = false
holds (some m) n = m == n

unfoldable pub opt_bytes : Option ℕ → (ℕ → List ℕ) → List ℕ
opt_bytes none bytes = []
opt_bytes (some n) bytes = bytes n

-- An entry of the rewritten table.
unfoldable pub entry_bytes : ℕ → ℕ → List ℕ
entry_bytes program_number pid =
    program_number / 256 % 256
    ∷ bit_and program_number 0xFF
    ∷ bit_or 0xE0 (bit_and (pid / 256) 0x1F)
    ∷ bit_and pid 0xFF
    ∷ []

unfoldable pub section_body : TsServiceFilter → PatTable → List ℕ
unfolding opt_bytes entry_bytes
section_body f pat =
    opt_bytes pat.nit_pid (entry_bytes 0) ++ opt_bytes f.pmt_pid (entry_bytes f.target_sid)

-- The section up to its CRC.
unfoldable pub section_start : PatTable → List ℕ → List ℕ
section_start pat body =
    let section_length = length body + 5 + 4 in
    0x00
    ∷ bit_or 0xB0 (bit_and (section_length / 256) 0x0F)
    ∷ bit_and section_length 0xFF
    ∷ pat.transport_stream_id / 256 % 256
    ∷ bit_and pat.transport_stream_id 0xFF
    ∷ bit_or 0xC1 (pat.version_number * 2 % 256)
    ∷ 0x00
    ∷ 0x00
    ∷ body

unfoldable pub crc_bytes : ℕ → List ℕ
crc_bytes crc =
    crc / 2 ^ 24 ∷ bit_and (crc / 2 ^ 16) 0xFF ∷ bit_and (crc / 2 ^ 8) 0xFF ∷ bit_and crc 0xFF ∷ []

unfoldable pub pat_section : TsServiceFilter → PatTable → List ℕ
unfolding crc_bytes
pat_section f pat =
    let start = section_start pat (section_body f pat) in start ++ crc_bytes (crc32_mpeg2 start)

-- The bytes 0xFF that fill the packet.
unfoldable pub padding : ℕ → List ℕ
padding zero = []
padding (suc n) = 0xFF ∷ padding n

-- The packet around a section that fits.
unfoldable pub pat_packet : ℕ → List ℕ → List ℕ
unfolding padding
pat_packet pat_cc section =
    sync_byte ∷ 0x40 ∷ 0x00 ∷ bit_or 0x10 (bit_and pat_cc 0x0F) ∷ 0x00 ∷ section
    ++ padding (ts_packet_size - 5 - length section)

unfoldable pub build_rewritten_pat : PatTable → TsServiceFilter → TsServiceFilter
unfolding pat_packet
build_rewritten_pat pat f =
    let section = pat_section f pat in
    if leb (length section) (ts_packet_size - 4 - 1)
    then record f {
      rewritten_pat_packets = pat_packet f.pat_cc section;
      pat_cc = bit_and (f.pat_cc + 1) 0x0F;
    }
    else record f { rewritten_pat_packets = [] }

-- The PMT's PID as the table has it; a service that is not there leaves the old one.
unfoldable pub track_pmt : Option ℕ → TsServiceFilter → TsServiceFilter
track_pmt none f = f
track_pmt (some pid) f =
    let tracked = record f { pmt_pid = some pid; allowed_pids = insert pid f.allowed_pids } in
    if holds f.pmt_pid pid then tracked else record tracked {
      pmt_collector = Collector.clear f.pmt_collector;
      pmt_version = none;
      ready = false;
    }

unfoldable pub update_pat : PatTable → TsServiceFilter → TsServiceFilter
unfolding track_pmt build_rewritten_pat holds
update_pat pat f =
    if holds f.pat_version pat.version_number
    then f
    else build_rewritten_pat pat (
        track_pmt (find_program f.target_sid pat.programs)
          (record f { pat_version = some pat.version_number }))

-- A complete section of the PAT; `unwrap` panics when its header is refused.
unfoldable pub process_pat_section : List ℕ → TsServiceFilter → Option TsServiceFilter
unfolding update_pat
process_pat_section section f = elim (Psi.parse section) [
  | err e ↦ none
  | panicked ↦ none
  | ok s ↦ (elim (parse_pat s) [
    | ok pat ↦ some (update_pat pat f)
    | err e ↦ some f
    | panicked ↦ none
  ])
]

unfoldable pub collect_pat : TsPacket → TsServiceFilter → Option TsServiceFilter
unfolding process_pat_section
collect_pat packet f =
    let added =
      add_data packet.payload packet.header.continuity_counter packet.header.payload_unit_start
        f.pat_collector in
    let f' = record f { pat_collector = added.0 } in
    if added.1
    then elim (get_section added.0) [
      | none ↦ some f'
      | some section ↦ process_pat_section section f'
    ]
    else some f'

unfoldable pub process_pat_packet : List ℕ → TsServiceFilter → Option TsServiceFilter
unfolding collect_pat
process_pat_packet bytes f = elim (Packet.parse bytes) [
  | err e ↦ some f
  | panicked ↦ none
  | ok packet ↦ collect_pat packet f
]

unfoldable pub allow_streams : List PmtStream → Pids → Pids
allow_streams [] pids = pids
allow_streams (s ∷ ss) pids = allow_streams ss (insert s.elementary_pid pids)

unfoldable pub allow_pmt : Option ℕ → Pids → Pids
allow_pmt none pids = pids
allow_pmt (some pid) pids = insert pid pids

unfoldable pub allow_pcr : ℕ → Pids → Pids
allow_pcr pcr_pid pids = if pcr_pid == 0x1FFF then pids else insert pcr_pid pids

unfoldable pub update_pmt : PmtTable → TsServiceFilter → TsServiceFilter
unfolding holds allow_streams allow_pmt allow_pcr
update_pmt pmt f = if holds f.pmt_version pmt.version_number then f else record f {
  pmt_version = some pmt.version_number;
  allowed_pids =
      allow_streams pmt.streams (allow_pcr pmt.pcr_pid (allow_pmt f.pmt_pid always_pass_pids));
  ready = true;
}

unfoldable pub process_pmt_section : List ℕ → TsServiceFilter → Option TsServiceFilter
unfolding update_pmt
process_pmt_section section f = elim (Psi.parse section) [
  | err e ↦ some f
  | panicked ↦ none
  | ok s ↦ (elim (parse_pmt s) [
    | ok pmt ↦ some (update_pmt pmt f)
    | err e ↦ some f
    | panicked ↦ none
  ])
]

unfoldable pub collect_pmt : TsPacket → TsServiceFilter → Option TsServiceFilter
unfolding process_pmt_section
collect_pmt packet f =
    let added =
      add_data packet.payload packet.header.continuity_counter packet.header.payload_unit_start
        f.pmt_collector in
    let f' = record f { pmt_collector = added.0 } in
    if added.1
    then elim (get_section added.0) [
      | none ↦ some f'
      | some section ↦ process_pmt_section section f'
    ]
    else some f'

unfoldable pub process_pmt_packet : List ℕ → TsServiceFilter → Option TsServiceFilter
unfolding collect_pmt
process_pmt_packet bytes f = elim (Packet.parse bytes) [
  | err e ↦ some f
  | panicked ↦ none
  | ok packet ↦ collect_pmt packet f
]

abbrev pub with_output :
    Option TsServiceFilter → (TsServiceFilter → List ℕ) → Option (TsServiceFilter × List ℕ)
with_output none out = none
with_output (some f) out = some (f, out f)

-- Two outputs, one behind the other.
abbrev pub and_output :
    Option (TsServiceFilter × List ℕ)
    → (TsServiceFilter → Option (TsServiceFilter × List ℕ))
    → Option (TsServiceFilter × List ℕ)
and_output none next = none
and_output (some (f, out)) next = elim (next f) [
  | none ↦ none
  | some (f', later) ↦ some (f', out ++ later)
]

-- What a packet adds to the output, with its PID decoded.
unfoldable pub route : List ℕ → ℕ → TsServiceFilter → Option (TsServiceFilter × List ℕ)
unfolding process_pat_packet process_pmt_packet holds
route bytes pid f =
    if pid == 0x0000
    then with_output (process_pat_packet bytes f) (λ f'. f'.rewritten_pat_packets)
    else if holds f.pmt_pid pid
    then with_output (process_pmt_packet bytes f) (λ f'. bytes)
    else some (f, if f.allowed_pids pid then bytes else [])

-- One round of `filter`, on a packet.
unfoldable pub filter_packet : List ℕ → TsServiceFilter → Option (TsServiceFilter × List ℕ)
unfolding pid_of route
filter_packet (b₀ ∷ b₁ ∷ b₂ ∷ rest) f =
    if b₀ == sync_byte then route (b₀ ∷ b₁ ∷ b₂ ∷ rest) (pid_of b₁ b₂) f else some (f, [])
filter_packet bytes f = none

unfoldable pub filter_packets : ℕ → List ℕ → TsServiceFilter → Option (TsServiceFilter × List ℕ)
unfolding filter_packet
filter_packets zero bytes f = some (f, [])
filter_packets (suc n) bytes f =
    and_output (filter_packet (take ts_packet_size bytes) f)
      (λ f'. filter_packets n (drop ts_packet_size bytes) f')

unfoldable pub filter : List ℕ → TsServiceFilter → Option (TsServiceFilter × List ℕ)
filter bytes f = filter_packets (length bytes / ts_packet_size) bytes f
