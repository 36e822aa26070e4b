-- ===== src/Ts/Filter/Rewritten.antt =====
-- The rewritten PAT, read back: the packet, its section and its table.
use Prim.Native.Nat.{bit_and, bit_or}
use recisdb_proxy_rs.Base.{
  ℕ, zero, suc, ◌+◌, ◌-◌, ◌*◌, ◌/◌, ◌≤◌, ◌<◌, ◌≡◌, refl, sym, ap, ◌∙◌, true, false, ◌^◌, ◌&&◌,
  Option, none, some, List, [], ◌∷◌, ◌++◌, append-nil, length, length-append, ltb, leb, ◌==◌, arith,
  ok,
}
use recisdb_proxy_rs.Base.Bits.{all_below, below_table, mask_4}
use recisdb_proxy_rs.Ts.Access.{index}
use recisdb_proxy_rs.Ts.Packet
use recisdb_proxy_rs.Ts.Packet.{
  TsHeader, TsPacket, header_of, pid_of, has_bits, parse_bytes, parse_fields, parse_payload,
  has_adaptation_field, has_payload, ts_packet_size,
}
use recisdb_proxy_rs.Ts.Psi
use recisdb_proxy_rs.Ts.Psi.{
  PsiSection, PsiHeader, length_of, word_of, long_header, parse_header, parse_crc, parse_section,
  parse_rest,
}
use recisdb_proxy_rs.Ts.Fields.{take-all, take-front, word_of-bytes, pid_of-bytes}
use recisdb_proxy_rs.Ts.Tables.{PatTable, add_program, add_programs}
use recisdb_proxy_rs.Ts.Filter.{padding, pat_packet, entry_bytes, opt_bytes}

pub length-padding : (n : ℕ) → length (padding n) ≡ n
unfolding padding
length-padding zero = refl
length-padding (suc n) = ap suc (length-padding n)

counter_table : all_below 16 (λ c. bit_and (bit_or 0x10 c / 16) 0x03 == 1) ≡ true
counter_table = refl

counter_control : (c : ℕ) → c < 16 → bit_and (bit_or 0x10 c / 16) 0x03 ≡ 1
counter_control c h =
    below_table 16 (λ c. bit_and (bit_or 0x10 c / 16) 0x03) (λ c. 1) c counter_table h

-- The fields of a packet that has a payload and no adaptation field.
plain_fields :
    (header : TsHeader) (b₀ b₁ b₂ b₃ : ℕ) (payload : List ℕ)
    → length payload ≡ 184
    → has_adaptation_field header ≡ false
    → has_payload header ≡ true
    → parse_fields header (b₀ ∷ b₁ ∷ b₂ ∷ b₃ ∷ payload)
      ≡ ok (record { header = header; adaptation_field = none; payload = payload })
unfolding parse_fields parse_payload
plain_fields header b₀ b₁ b₂ b₃ payload len plain full =
    let inside : leb 188 (length (b₀ ∷ b₁ ∷ b₂ ∷ b₃ ∷ payload)) ≡ true = ground (arith, len) in
    let all = take-all payload 184 (omega (arith, len)) in
    rw plain (rw full (rw inside (rw all refl)))

-- A packet of 188 bytes with the sync byte.
synced :
    (b₁ b₂ b₃ : ℕ) (payload : List ℕ)
    → length payload ≡ 184
    → Packet.parse (0x47 ∷ b₁ ∷ b₂ ∷ b₃ ∷ payload)
      ≡ parse_fields (header_of b₁ b₂ b₃) (0x47 ∷ b₁ ∷ b₂ ∷ b₃ ∷ payload)
unfolding Packet.parse parse_bytes
synced b₁ b₂ b₃ payload len =
    let long : ltb (length (0x47 ∷ b₁ ∷ b₂ ∷ b₃ ∷ payload)) 188 ≡ false = ground (arith, len) in
    rw long refl

plain_control :
    (b₁ b₂ b₃ : ℕ)
    → bit_and (b₃ / 16) 0x03 ≡ 1
    → (has_adaptation_field (header_of b₁ b₂ b₃) ≡ false)
      × (has_payload (header_of b₁ b₂ b₃) ≡ true)
unfolding has_adaptation_field has_payload has_bits header_of
plain_control b₁ b₂ b₃ h = (rw h refl, rw h refl)

-- The packet around a section that fits.
pub pat_packet-parse :
    (pat_cc : ℕ) (section : List ℕ)
    → length section ≤ 183
    → Packet.parse (pat_packet pat_cc section)
      ≡ ok (record {
        header = header_of 0x40 0x00 (bit_or 0x10 (bit_and pat_cc 0x0F));
        adaptation_field = none;
        payload = 0x00 ∷ section ++ padding (188 - 5 - length section);
      })
unfolding pat_packet
pat_packet-parse pat_cc section h =
    let counter = bit_and pat_cc 0x0F in
    let small : counter < 16 = omega (arith, mask_4 pat_cc) in
    let control = plain_control 0x40 0x00 (bit_or 0x10 counter) (counter_control counter small) in
    let fill = 188 - 5 - length section in
    let payload = 0x00 ∷ section ++ padding fill in
    let len : length payload ≡ 184 =
      omega (arith, length-append section (padding fill), length-padding fill) in
    synced 0x40 0x00 (bit_or 0x10 counter) payload len
    ∙ plain_fields _ 0x47 0x40 0x00 (bit_or 0x10 counter) payload len control.0 control.1

-- One entry of the table, read back.
entry-read :
    (program_number pid : ℕ) (rest : List ℕ) (pat : PatTable)
    → program_number < 65536
    → pid < 8192
    → add_programs (entry_bytes program_number pid ++ rest) pat
      ≡ add_programs rest (add_program program_number pid pat)
unfolding add_programs entry_bytes
entry-read program_number pid rest pat h k =
    rw (word_of-bytes program_number h) (rw (pid_of-bytes pid k) refl)

-- The table that lists one service, and the network's PID where there is one.
abbrev pub single : ℕ → ℕ → Option ℕ → ℕ → ℕ → PatTable
single stream version nit sid pid = record {
  transport_stream_id = stream;
  version_number = version;
  programs = record { program_number = sid; pid = pid } ∷ [];
  nit_pid = nit;
}

service-added :
    (stream version sid pid : ℕ) (nit : Option ℕ)
    → (sid == 0) ≡ false
    → add_programs [] (
        add_program sid pid (record {
          transport_stream_id = stream;
          version_number = version;
          programs = [];
          nit_pid = nit;
        }))
      ≡ ok (single stream version nit sid pid)
unfolding add_programs add_program
service-added stream version sid pid nit other = rw other refl

service-read :
    (stream version sid pid : ℕ) (nit : Option ℕ)
    → 0 < sid
    → sid < 65536
    → pid < 8192
    → add_programs (entry_bytes sid pid) (record {
      transport_stream_id = stream;
      version_number = version;
      programs = [];
      nit_pid = nit;
    })
      ≡ ok (single stream version nit sid pid)
service-read stream version sid pid nit named h k =
    let other : (sid == 0) ≡ false = ground arith in
    let start : PatTable = record {
      transport_stream_id = stream;
      version_number = version;
      programs = [];
      nit_pid = nit;
    } in
    ap (λ bytes. add_programs bytes start) (sym (append-nil (entry_bytes sid pid)))
    ∙ entry-read sid pid [] start h k
    ∙ service-added stream version sid pid nit other

pub body-read :
    (stream version sid pid : ℕ) (nit : Option ℕ)
    → 0 < sid
    → sid < 65536
    → pid < 8192
    → ((n : ℕ) → nit ≡ some n → n < 8192)
    → add_programs (opt_bytes nit (entry_bytes 0) ++ entry_bytes sid pid) (record {
      transport_stream_id = stream;
      version_number = version;
      programs = [];
      nit_pid = none;
    })
      ≡ ok (single stream version nit sid pid)
unfolding opt_bytes add_program
body-read stream version sid pid none named h k b =
    service-read stream version sid pid none named h k
body-read stream version sid pid (some n) named h k b =
    entry-read 0 n (entry_bytes sid pid) _ (omega arith) (b n refl)
    ∙ service-read stream version sid pid (some n) named h k

index-append : (xs ys : List ℕ) (k : ℕ) → index (xs ++ ys) (length xs + k) ≡ index ys k
index-append [] ys k = ap (index ys) (omega arith)
index-append (x ∷ xs) ys k =
    let next : suc (length xs) + k ≡ suc (length xs + k) = omega arith in
    rw next (index-append xs ys k)

-- The value of the CRC's bytes.
abbrev pub crc_value : ℕ → ℕ → ℕ → ℕ → ℕ
crc_value c₀ c₁ c₂ c₃ = bit_or (bit_or (bit_or (c₀ * 2 ^ 24) (c₁ * 2 ^ 16)) (c₂ * 2 ^ 8)) c₃

crc-read :
    (front : List ℕ) (c₀ c₁ c₂ c₃ : ℕ)
    → parse_crc (front ++ c₀ ∷ c₁ ∷ c₂ ∷ c₃ ∷ []) (length front) ≡ ok (crc_value c₀ c₁ c₂ c₃)
unfolding parse_crc
crc-read front c₀ c₁ c₂ c₃ =
    let last = c₀ ∷ c₁ ∷ c₂ ∷ c₃ ∷ [] in
    let zeroth : index (front ++ last) (length front) ≡ ok c₀ =
      ap (index (front ++ last)) (omega arith) ∙ index-append front last 0 in
    rw zeroth (
      rw (index-append front last 1)
        (rw (index-append front last 2) (rw (index-append front last 3) refl)))

-- The part behind the header's eight bytes.
parse_section-read :
    (header : PsiHeader) (b₀ b₁ b₂ b₃ b₄ b₅ b₆ b₇ : ℕ) (body : List ℕ) (c₀ c₁ c₂ c₃ : ℕ)
    → header.section_syntax_indicator ≡ true
    → 0 < length body
    → parse_section
        (b₀ ∷ b₁ ∷ b₂ ∷ b₃ ∷ b₄ ∷ b₅ ∷ b₆ ∷ b₇ ∷ body ++ c₀ ∷ c₁ ∷ c₂ ∷ c₃ ∷ [])
        header
        (3 + (length body + 9))
      ≡ ok (record { header = header; body = body; crc32 = crc_value c₀ c₁ c₂ c₃ })
unfolding parse_section
parse_section-read header b₀ b₁ b₂ b₃ b₄ b₅ b₆ b₇ body c₀ c₁ c₂ c₃ long some_body =
    let last = c₀ ∷ c₁ ∷ c₂ ∷ c₃ ∷ [] in
    let front = b₀ ∷ b₁ ∷ b₂ ∷ b₃ ∷ b₄ ∷ b₅ ∷ b₆ ∷ b₇ ∷ body in
    let data_end : 3 + (length body + 9) - 4 ≡ length front = omega arith in
    let more : leb (length front) 8 ≡ false = ground arith in
    let inside : (leb 8 (length front) && leb (length front) (length (front ++ last))) ≡ true =
      ground (arith, length-append front last) in
    let behind : length front - 8 ≡ length body = omega arith in
    rw (long, data_end)
      (rw more
        (rw inside (rw behind (rw (take-front body last) (rw (crc-read front c₀ c₁ c₂ c₃) refl)))))

-- The header of a long section with its eight bytes.
abbrev pub long_header_of : ℕ → ℕ → ℕ → ℕ → ℕ → PsiHeader
long_header_of table_id n e₁ e₂ v = record {
  table_id = table_id;
  section_syntax_indicator = true;
  section_length = n;
  table_id_extension = word_of e₁ e₂;
  version_number = bit_and (v / 2) 0x1F;
  current_next_indicator = has_bits v 0x01;
  section_number = 0;
  last_section_number = 0;
}

pub section-read :
    (b₁ b₂ e₁ e₂ v : ℕ) (body : List ℕ) (c₀ c₁ c₂ c₃ : ℕ)
    → length_of b₁ b₂ ≡ length body + 9
    → has_bits b₁ 0x80 ≡ true
    → 0 < length body
    → Psi.parse (0 ∷ b₁ ∷ b₂ ∷ e₁ ∷ e₂ ∷ v ∷ 0 ∷ 0 ∷ body ++ c₀ ∷ c₁ ∷ c₂ ∷ c₃ ∷ [])
      ≡ ok (record {
        header = long_header_of 0 (length body + 9) e₁ e₂ v;
        body = body;
        crc32 = crc_value c₀ c₁ c₂ c₃;
      })
unfolding Psi.parse parse_rest parse_header long_header
section-read b₁ b₂ e₁ e₂ v body c₀ c₁ c₂ c₃ n long some_body =
    let last = c₀ ∷ c₁ ∷ c₂ ∷ c₃ ∷ [] in
    let section = 0 ∷ b₁ ∷ b₂ ∷ e₁ ∷ e₂ ∷ v ∷ 0 ∷ 0 ∷ body ++ last in
    let len : length section ≡ length body + 12 = omega (arith, length-append body last) in
    let three : ltb (length section) 3 ≡ false = ground (arith, len) in
    let five : ltb (length body + 9) 5 ≡ false = ground arith in
    let whole : ltb (length section) (3 + (length body + 9)) ≡ false = ground (arith, len) in
    let eight : ltb (length section) 8 ≡ false = ground (arith, len) in
    rw three (
      rw (n, long)
        (rw five (
          rw whole (
            rw eight (
              parse_section-read (long_header_of 0 (length body + 9) e₁ e₂ v) 0 b₁ b₂ e₁ e₂ v 0 0
                body c₀ c₁ c₂ c₃ refl some_body)))))
