-- ===== src/Ts/Filter/Table.antt =====
-- The rewritten PAT, read back by the same parsers.
use Prim.Native.Nat.{bit_and, bit_or}
use recisdb_proxy_rs.Base.{
  ℕ, ◌+◌, ◌-◌, ◌*◌, ◌/◌, ◌%◌, ◌≤◌, ◌<◌, ◌≡◌, refl, ap, ◌∙◌, true, Option, none, some, List, [], ◌∷◌,
  ◌++◌, length, length-append, take, leb, ◌==◌, arith, ok, err,
}
use recisdb_proxy_rs.Ts.Access.{Parse, ◌>>=◌, no_data}
use recisdb_proxy_rs.Ts.Packet
use recisdb_proxy_rs.Ts.Packet.{header_of, has_bits, TsHeader}
use recisdb_proxy_rs.Ts.Psi
use recisdb_proxy_rs.Ts.Psi.{PsiSection, PsiHeader, crc32_mpeg2, length_of}
use recisdb_proxy_rs.Ts.Collector.{SectionCollector, add_data, get_section}
use recisdb_proxy_rs.Ts.Tables.{PatTable, parse_pat, pat_of}
use recisdb_proxy_rs.Ts.Filter.{
  TsServiceFilter, padding, pat_packet, entry_bytes, opt_bytes, section_body, section_start,
  crc_bytes, pat_section, build_rewritten_pat,
}
use recisdb_proxy_rs.Ts.Filter.Panics.{added_start, whole_section}
use recisdb_proxy_rs.Ts.Fields.{
  take-front, word_of-bytes, version_of, section_length_field, syntax_field,
}
use recisdb_proxy_rs.Ts.Filter.Rewritten.{single, body-read, section-read, pat_packet-parse}

-- The table of a section, where there is one.
abbrev pub section_table : Option (List ℕ) → Parse PatTable
section_table none = err no_data
section_table (some section) = Psi.parse section >>= parse_pat

-- The table that a collector gets from one packet.
abbrev pub packet_table : List ℕ → SectionCollector → Parse PatTable
packet_table bytes c = Packet.parse bytes >>= λ packet. section_table (
    get_section
      (add_data packet.payload packet.header.continuity_counter packet.header.payload_unit_start
        c).0)

abbrev body_of : Option ℕ → ℕ → ℕ → List ℕ
body_of nit sid pid = opt_bytes nit (entry_bytes 0) ++ entry_bytes sid pid

body_length :
    (nit : Option ℕ) (sid pid : ℕ)
    → (0 < length (body_of nit sid pid))
      × (length (body_of nit sid pid) ≤ 8)
      × (length (body_of nit sid pid) % 4 ≡ 0)
unfolding opt_bytes entry_bytes
body_length none sid pid = (omega arith, omega arith, refl)
body_length (some n) sid pid = (omega arith, omega arith, refl)

abbrev section_with : PatTable → List ℕ → List ℕ
section_with pat body = section_start pat body ++ crc_bytes (crc32_mpeg2 (section_start pat body))

section_with-parse_pat :
    (stream version : ℕ) (nit : Option ℕ) (sid pid : ℕ) (s : PsiSection)
    → 0 < sid
    → sid < 65536
    → pid < 8192
    → ((n : ℕ) → nit ≡ some n → n < 8192)
    → s.header.table_id ≡ 0
    → s.header.table_id_extension ≡ stream
    → s.header.version_number ≡ version
    → s.body ≡ body_of nit sid pid
    → parse_pat s ≡ ok (single stream version nit sid pid)
unfolding parse_pat pat_of
section_with-parse_pat stream version nit sid pid s named h k b table e v body =
    let four : (length (body_of nit sid pid) % 4 == 0) ≡ true =
      ground (arith, body_length nit sid pid) in
    rw (table, e, v, body) (rw four (body-read stream version sid pid nit named h k b))

section_with-table :
    (pat : PatTable) (sid pid : ℕ)
    → 0 < sid
    → sid < 65536
    → pid < 8192
    → ((n : ℕ) → pat.nit_pid ≡ some n → n < 8192)
    → pat.transport_stream_id < 65536
    → pat.version_number < 32
    → section_table (some (section_with pat (body_of pat.nit_pid sid pid)))
      ≡ ok (single pat.transport_stream_id pat.version_number pat.nit_pid sid pid)
unfolding section_start crc_bytes
section_with-table pat sid pid named h k b stream version =
    let body = body_of pat.nit_pid sid pid in
    let bounds = body_length pat.nit_pid sid pid in
    let n : ℕ = length body + 5 + 4 in
    let small : n < 256 = omega (arith, bounds) in
    let read =
      section-read (bit_or 0xB0 (bit_and (n / 256) 0x0F)) (bit_and n 0xFF)
        (pat.transport_stream_id / 256 % 256) (bit_and pat.transport_stream_id 0xFF)
        (bit_or 0xC1 (pat.version_number * 2 % 256)) body _ _ _ _
        (section_length_field n small ∙ omega arith) (syntax_field n small) bounds.0 in
    ap (λ r. r >>= parse_pat) read
    ∙ section_with-parse_pat pat.transport_stream_id pat.version_number pat.nit_pid sid pid _ named
        h k b refl (word_of-bytes pat.transport_stream_id stream)
        (version_of pat.version_number version) refl

-- A section that fits behind the pointer field is what the collector gets from its packet.
packet_table-section :
    (c : SectionCollector) (pat_cc : ℕ) (b₀ b₁ b₂ : ℕ) (rest : List ℕ)
    → length rest ≤ 180
    → length_of b₁ b₂ ≡ length rest
    → packet_table (pat_packet pat_cc (b₀ ∷ b₁ ∷ b₂ ∷ rest)) c
      ≡ section_table (some (b₀ ∷ b₁ ∷ b₂ ∷ rest))
unfolding header_of has_bits
packet_table-section c pat_cc b₀ b₁ b₂ rest h n =
    let section = b₀ ∷ b₁ ∷ b₂ ∷ rest in
    let fill = padding (188 - 5 - length section) in
    let header : TsHeader = header_of 0x40 0x00 (bit_or 0x10 (bit_and pat_cc 0x0F)) in
    let counter : ℕ = header.continuity_counter in
    let there : length_of b₁ b₂ ≤ length (rest ++ fill) = omega (arith, length-append rest fill) in
    let whole =
      whole_section b₀ b₁ b₂ (rest ++ fill) counter there
      ∙ ap (λ m. some (b₀ ∷ b₁ ∷ b₂ ∷ take m (rest ++ fill))) n
      ∙ ap (λ l. some (b₀ ∷ b₁ ∷ b₂ ∷ l)) (take-front rest fill) in
    ap
      (λ r. r >>= λ packet. section_table (
        get_section
          (add_data packet.payload packet.header.continuity_counter packet.header.payload_unit_start
            c).0))
      (pat_packet-parse pat_cc section (omega arith))
    ∙ ap (λ added. section_table (get_section added.0))
        (added_start c (0x00 ∷ section ++ fill) [] b₀ b₁ b₂ (rest ++ fill) counter
          header.payload_unit_start refl refl there)
    ∙ ap section_table whole

section_with-packet :
    (c : SectionCollector) (pat_cc : ℕ) (pat : PatTable) (body : List ℕ)
    → length body ≤ 8
    → packet_table (pat_packet pat_cc (section_with pat body)) c
      ≡ section_table (some (section_with pat body))
unfolding section_start crc_bytes
section_with-packet c pat_cc pat body h =
    let start = section_start pat body in
    let n : ℕ = length body + 5 + 4 in
    let len = length-append body (crc_bytes (crc32_mpeg2 start)) in
    packet_table-section c pat_cc 0x00 (bit_or 0xB0 (bit_and (n / 256) 0x0F)) (bit_and n 0xFF) _
      (omega (arith, len)) (section_length_field n (omega arith) ∙ omega (arith, len))

rewritten-section :
    (f : TsServiceFilter) (pat : PatTable) (pid : ℕ)
    → f.pmt_pid ≡ some pid
    → (build_rewritten_pat pat f).rewritten_pat_packets
      ≡ pat_packet f.pat_cc (section_with pat (body_of pat.nit_pid f.target_sid pid))
unfolding build_rewritten_pat pat_section section_body opt_bytes section_start crc_bytes
rewritten-section f pat pid e =
    let sid = f.target_sid in
    let body = body_of pat.nit_pid sid pid in
    let bounds = body_length pat.nit_pid sid pid in
    let start = section_start pat body in
    let len = length-append body (crc_bytes (crc32_mpeg2 start)) in
    let fits : leb (length (section_with pat body)) 183 ≡ true = ground (arith, len, bounds) in
    rw (e, fits) refl

-- The filter knows the PID of its service's PMT, and the service is not number 0, which is the
-- network's. Any collector gets a table from the rewritten packet alone: it has the stream id and the
-- version of the original, its network PID if it has one, and the service with that PID, and no other
-- program. The fields are in the ranges of their bits.
pub rewritten_pat-table :
    (f : TsServiceFilter) (pat : PatTable) (pid : ℕ) (c : SectionCollector)
    → f.pmt_pid ≡ some pid
    → 0 < f.target_sid
    → f.target_sid < 65536
    → pid < 8192
    → ((n : ℕ) → pat.nit_pid ≡ some n → n < 8192)
    → pat.transport_stream_id < 65536
    → pat.version_number < 32
    → packet_table (build_rewritten_pat pat f).rewritten_pat_packets c
      ≡ ok (single pat.transport_stream_id pat.version_number pat.nit_pid f.target_sid pid)
rewritten_pat-table f pat pid c e named h k b stream version =
    ap (λ bytes. packet_table bytes c) (rewritten-section f pat pid e)
    ∙ section_with-packet c f.pat_cc pat (body_of pat.nit_pid f.target_sid pid)
        (body_length pat.nit_pid f.target_sid pid).1
    ∙ section_with-table pat f.target_sid pid named h k b stream version
