-- ===== src/Ts/PanicFree.antt =====
-- The parsers of ts_analyzer on any bytes: every index and slice is inside its bounds.
use recisdb_proxy_rs.Base.{
  ℕ, zero, suc, ◌+◌, ◌-◌, ◌<◌, ◌≤◌, ◌%◌, ◌≡◌, ◌≢◌, refl, Bool, true, false, ◌&&◌, List, [], ◌∷◌,
  length, drop, ltb, leb, ◌==◌, if◌then◌else◌, le_of_ltb, arith, ok, err, panicked,
}
use recisdb_proxy_rs.Ts.Access.{Parse, ◌>>=◌, index, sub_slice, TsError}
use recisdb_proxy_rs.Ts.Packet
use recisdb_proxy_rs.Ts.Packet.{
  TsHeader, has_bits, has_payload, has_adaptation_field, parse_pcr, parse_adaptation, parse_payload,
  parse_fields, parse_bytes, ts_packet_size, header_of,
}
use recisdb_proxy_rs.Ts.Psi
use recisdb_proxy_rs.Ts.Psi.{
  PsiHeader, PsiSection, long_header, parse_header, parse_crc, parse_section, parse_rest,
}
use recisdb_proxy_rs.Ts.Tables.{
  PatTable, add_programs, parse_pat, parse_streams, pmt_of, parse_pmt_info, parse_pmt,
}

-- What is inside the bounds is there.
get_elem-there : (bytes : List ℕ) (i : ℕ) → i < length bytes → index bytes i ≢ panicked
get_elem-there [] i h = absurd (omega arith)
get_elem-there (b ∷ bs) zero h = λ e. cc
get_elem-there (b ∷ bs) (suc i) h = get_elem-there bs i (omega arith)

pub bind-ne-panicked :
    {A B : Type 0} (p : Parse A) (f : A → Parse B)
    → p ≢ panicked
    → ((a : A) → f a ≢ panicked)
    → (p >>= f) ≢ panicked
bind-ne-panicked (ok a) f h k = k a
bind-ne-panicked (err e) f h k = λ e'. cc
bind-ne-panicked panicked f h k = λ e. h refl

-- Indexing, then the rest.
pub index-then :
    {B : Type 0} (bytes : List ℕ) (i : ℕ) (f : ℕ → Parse B)
    → i < length bytes
    → ((a : ℕ) → f a ≢ panicked)
    → (index bytes i >>= f) ≢ panicked
index-then bytes i f h k = bind-ne-panicked (index bytes i) f (get_elem-there bytes i h) k

pub if-ne-panicked :
    {A : Type 0} (t : Bool) (p q : Parse A)
    → (t ≡ true → p ≢ panicked)
    → (t ≡ false → q ≢ panicked)
    → (if t then p else q) ≢ panicked
if-ne-panicked true p q h k = h refl
if-ne-panicked false p q h k = k refl

pub ok-ne-panicked : {A : Type 0} (a : A) → ◌≢◌ {A = Parse A} (ok a) panicked
ok-ne-panicked a = λ e. cc

err-ne-panicked : {A : Type 0} (e : TsError) → ◌≢◌ {A = Parse A} (err e) panicked
err-ne-panicked e = λ e'. cc

pub sub_slice-ne-panicked :
    (bytes : List ℕ) (from to : ℕ)
    → from ≤ to
    → to ≤ length bytes
    → sub_slice bytes from to ≢ panicked
sub_slice-ne-panicked bytes from to h k =
    let t : (leb from to && leb to (length bytes)) ≡ true = ground arith in rw t (ok-ne-panicked _)

parse_pcr-ne-panicked : (bytes : List ℕ) → 12 ≤ length bytes → parse_pcr bytes ≢ panicked
unfolding parse_pcr
parse_pcr-ne-panicked bytes h = index-then bytes 6 _ (omega arith) λ b₆.
    index-then bytes 7 _ (omega arith) λ b₇. index-then bytes 8 _ (omega arith) λ b₈.
      index-then bytes 9 _ (omega arith) λ b₉.
        index-then bytes 10 _ (omega arith)
          λ b₁₀. index-then bytes 11 _ (omega arith) λ b₁₁. ok-ne-panicked _

parse_adaptation-ne-panicked : (bytes : List ℕ) (n : ℕ) → parse_adaptation bytes n ≢ panicked
unfolding parse_adaptation
parse_adaptation-ne-panicked bytes n =
    if-ne-panicked (ltb 0 n && ltb 5 (length bytes)) _ _
      (λ t. index-then bytes 5 _ (ground arith) λ flags.
        bind-ne-panicked _ _
          (if-ne-panicked (has_bits flags 0x10 && leb 6 n && leb 12 (length bytes)) _ _
            (λ t'. parse_pcr-ne-panicked bytes (ground arith)) (λ t'. ok-ne-panicked _))
          (λ pcr. ok-ne-panicked _))
      (λ t. ok-ne-panicked _)

parse_payload-ne-panicked :
    (header : TsHeader) (bytes : List ℕ) (offset : ℕ)
    → ts_packet_size ≤ length bytes
    → parse_payload header bytes offset ≢ panicked
unfolding parse_payload
parse_payload-ne-panicked header bytes offset h =
    if-ne-panicked (has_payload header && ltb offset ts_packet_size) _ _
      (λ t. sub_slice-ne-panicked bytes offset ts_packet_size (ground arith) h)
      (λ t. ok-ne-panicked _)

parse_fields-ne-panicked :
    (header : TsHeader) (bytes : List ℕ)
    → ts_packet_size ≤ length bytes
    → parse_fields header bytes ≢ panicked
unfolding parse_fields
parse_fields-ne-panicked header bytes h =
    if-ne-panicked (has_adaptation_field header) _ _
      (λ t. index-then bytes 4 _ (omega arith) λ n.
        bind-ne-panicked _ _ (parse_adaptation-ne-panicked bytes n) λ field.
          bind-ne-panicked _ _ (parse_payload-ne-panicked header bytes (5 + n) h)
            λ payload. ok-ne-panicked _)
      (λ t.
        bind-ne-panicked _ _ (parse_payload-ne-panicked header bytes 4 h)
          λ payload. ok-ne-panicked _)

-- A packet parser that gets any bytes returns a packet or an error: it never panics.
pub parse_packet-ne-panicked : (bytes : List ℕ) → Packet.parse bytes ≢ panicked
unfolding Packet.parse parse_bytes
parse_packet-ne-panicked bytes =
    if-ne-panicked (ltb (length bytes) ts_packet_size) _ _ (λ t. err-ne-panicked _)
      λ t.
        let h = le_of_ltb (length bytes) ts_packet_size t in
        index-then bytes 0 _ (omega arith) λ b₀.
          if-ne-panicked (b₀ == 0x47) _ _
            (λ t'. index-then bytes 1 _ (omega arith) λ b₁. index-then bytes 2 _ (omega arith) λ b₂.
              index-then bytes 3 _ (omega arith)
                λ b₃. parse_fields-ne-panicked (header_of b₁ b₂ b₃) bytes h)
            (λ t'. err-ne-panicked _)

long_header-ne-panicked : (bytes : List ℕ) (t n : ℕ) → long_header bytes t n ≢ panicked
unfolding long_header
long_header-ne-panicked bytes t n =
    if-ne-panicked (ltb (length bytes) 8) _ _ (λ s. err-ne-panicked _)
      λ s.
        let h = le_of_ltb (length bytes) 8 s in
        index-then bytes 3 _ (omega arith) λ b₃. index-then bytes 4 _ (omega arith) λ b₄.
          index-then bytes 5 _ (omega arith) λ b₅.
            index-then bytes 6 _ (omega arith)
              λ b₆. index-then bytes 7 _ (omega arith) λ b₇. ok-ne-panicked _

parse_header-ne-panicked :
    (bytes : List ℕ) (syntax : Bool) (t n : ℕ) → parse_header bytes syntax t n ≢ panicked
unfolding parse_header
parse_header-ne-panicked bytes true t n = long_header-ne-panicked bytes t n
parse_header-ne-panicked bytes false t n = ok-ne-panicked _

parse_crc-ne-panicked :
    (bytes : List ℕ) (offset : ℕ) → offset + 4 ≤ length bytes → parse_crc bytes offset ≢ panicked
unfolding parse_crc
parse_crc-ne-panicked bytes offset h = index-then bytes offset _ (omega arith) λ c₀.
    index-then bytes (offset + 1) _ (omega arith) λ c₁.
      index-then bytes (offset + 2) _ (omega arith)
        λ c₂. index-then bytes (offset + 3) _ (omega arith) λ c₃. ok-ne-panicked _

parse_section-ne-panicked :
    (bytes : List ℕ) (header : PsiHeader) (total : ℕ)
    → 4 ≤ total
    → total ≤ length bytes
    → parse_section bytes header total ≢ panicked
unfolding parse_section
parse_section-ne-panicked bytes header total h k =
    let data_start : ℕ = if header.section_syntax_indicator then 8 else 3 in
    if-ne-panicked (leb (total - 4) data_start) _ _ (λ t. err-ne-panicked _)
      λ t.
        bind-ne-panicked _ _
          (sub_slice-ne-panicked bytes data_start (total - 4) (ground arith) (omega arith))
          λ body.
            bind-ne-panicked _ _ (parse_crc-ne-panicked bytes (total - 4) (omega arith))
              λ crc. ok-ne-panicked _

-- The section parser returns a section or an error on any bytes: it never panics.
pub parse_section_bytes-ne-panicked : (bytes : List ℕ) → Psi.parse bytes ≢ panicked
unfolding Psi.parse parse_rest
parse_section_bytes-ne-panicked bytes =
    if-ne-panicked (ltb (length bytes) 3) _ _ (λ t. err-ne-panicked _)
      λ t.
        let h = le_of_ltb (length bytes) 3 t in
        index-then bytes 0 _ (omega arith) λ b₀. index-then bytes 1 _ (omega arith) λ b₁.
          index-then bytes 2 _ (omega arith) λ b₂.
            let n : ℕ = Psi.length_of b₁ b₂ in
            if-ne-panicked (ltb n 5) _ _ (λ t'. err-ne-panicked _)
              λ t'.
                if-ne-panicked (ltb (length bytes) (3 + n)) _ _ (λ s. err-ne-panicked _)
                  λ s.
                    bind-ne-panicked _ _ (parse_header-ne-panicked bytes (has_bits b₁ 0x80) b₀ n)
                      λ header.
                        parse_section-ne-panicked bytes header (3 + n)
                          (omega (arith, le_of_ltb n 5 t')) (le_of_ltb (length bytes) (3 + n) s)

add_programs-ne-panicked :
    (bytes : List ℕ) (pat : PatTable) → length bytes % 4 ≡ 0 → add_programs bytes pat ≢ panicked
unfolding add_programs
add_programs-ne-panicked [] pat h = ok-ne-panicked _
add_programs-ne-panicked (b₀ ∷ []) pat h = absurd (omega arith)
add_programs-ne-panicked (b₀ ∷ b₁ ∷ []) pat h = absurd (omega arith)
add_programs-ne-panicked (b₀ ∷ b₁ ∷ b₂ ∷ []) pat h = absurd (omega arith)
add_programs-ne-panicked (b₀ ∷ b₁ ∷ b₂ ∷ b₃ ∷ rest) pat h =
    add_programs-ne-panicked rest _ (omega arith)

pub parse_pat-ne-panicked : (s : PsiSection) → parse_pat s ≢ panicked
unfolding parse_pat
parse_pat-ne-panicked s =
    if-ne-panicked (s.header.table_id == 0) _ _
      (λ t.
        if-ne-panicked (length s.body % 4 == 0) _ _
          (λ m. add_programs-ne-panicked s.body _ (ground arith)) (λ m. err-ne-panicked _))
      (λ t. err-ne-panicked _)

parse_streams-ne-panicked : (n : ℕ) (bytes : List ℕ) → parse_streams n bytes ≢ panicked
unfolding parse_streams
parse_streams-ne-panicked zero bytes = ok-ne-panicked _
parse_streams-ne-panicked (suc n) bytes =
    if-ne-panicked (ltb (length bytes) 5) _ _ (λ t. ok-ne-panicked _)
      λ t.
        let h = le_of_ltb (length bytes) 5 t in
        index-then bytes 0 _ (omega arith) λ b₀. index-then bytes 1 _ (omega arith) λ b₁.
          index-then bytes 2 _ (omega arith) λ b₂. index-then bytes 3 _ (omega arith) λ b₃.
            index-then bytes 4 _ (omega arith) λ b₄.
              let end : ℕ = 5 + Psi.length_of b₃ b₄ in
              if-ne-panicked (ltb (length bytes) end) _ _ (λ over. ok-ne-panicked _)
                λ fits.
                  bind-ne-panicked _ _
                    (sub_slice-ne-panicked bytes 5 end (omega arith)
                      (le_of_ltb (length bytes) end fits))
                    λ descriptors.
                      bind-ne-panicked _ _ (parse_streams-ne-panicked n (drop end bytes))
                        λ later. ok-ne-panicked _

pmt_of-ne-panicked :
    (s : PsiSection) (pcr_pid n : ℕ) → 4 + n ≤ length s.body → pmt_of s pcr_pid n ≢ panicked
unfolding pmt_of
pmt_of-ne-panicked s pcr_pid n h =
    bind-ne-panicked _ _ (sub_slice-ne-panicked s.body 4 (4 + n) (omega arith) h) λ program_info.
      bind-ne-panicked _ _ (parse_streams-ne-panicked (length s.body) (drop (4 + n) s.body))
        λ streams. ok-ne-panicked _

pub parse_pmt-ne-panicked : (s : PsiSection) → parse_pmt s ≢ panicked
unfolding parse_pmt parse_pmt_info
parse_pmt-ne-panicked s =
    if-ne-panicked (s.header.table_id == 2) _ _
      (λ t.
        if-ne-panicked (ltb (length s.body) 4) _ _ (λ short. err-ne-panicked _)
          λ long.
            let h = le_of_ltb (length s.body) 4 long in
            index-then s.body 0 _ (omega arith) λ b₀. index-then s.body 1 _ (omega arith) λ b₁.
              index-then s.body 2 _ (omega arith) λ b₂. index-then s.body 3 _ (omega arith) λ b₃.
                if-ne-panicked (ltb (length s.body) (4 + Psi.length_of b₂ b₃)) _ _
                  (λ over. err-ne-panicked _)
                  (λ fits. pmt_of-ne-panicked s _ _ (le_of_ltb (length s.body) _ fits)))
      (λ t. err-ne-panicked _)
