-- ===== src/Ts/Minimal/PanicFree.antt =====
-- The parser of the passive scanner on any bytes: no index, slice or subtraction is out of bounds.
use Prim.Native.Nat.{bit_and}
use recisdb_proxy_rs.Base.{
  ℕ, ◌/◌, zero, suc, ◌+◌, ◌-◌, ◌<◌, ◌≤◌, ◌≡◌, ◌≢◌, refl, sym, ◌∙◌, Bool, true, false, not, ◌&&◌,
  ◌||◌, Option, none, some, List, [], ◌∷◌, ◌++◌, length, take, drop, length-take, ltb, leb, ◌==◌,
  le_of_ltb, arith, ok, panicked,
}
use recisdb_proxy_rs.Ts.Access.{index}
use recisdb_proxy_rs.Ts.PanicFree.{
  bind-ne-panicked, index-then, if-ne-panicked, ok-ne-panicked, sub_slice-ne-panicked,
}
use recisdb_proxy_rs.Ts.Psi.{length_of}
use recisdb_proxy_rs.Ts.Packet.{has_bits, pid_of}
use recisdb_proxy_rs.Ts.Minimal.Tables.{Text, ParseResult}
use recisdb_proxy_rs.Ts.Minimal.Tables.PanicFree.{
  IsSection, index-known, parse_pat-ne-panicked, parse_nit-ne-panicked, parse_sdt-ne-panicked,
}
use recisdb_proxy_rs.Ts.Minimal.{
  MinimalTsParser, SectionBuffer, parse_table, take_section, try_parse_section, start_section,
  continue_section, process_payload, payload_offset, process_at, process_header, process_packet,
  find_sync, feed_packets, feed, put_buffer, is_next, is_wanted,
}

parse_table-ne-panicked :
    (t : Text) (pid : ℕ) (bytes : List ℕ) (r : ParseResult)
    → IsSection bytes
    → parse_table t pid bytes r ≢ panicked
unfolding parse_table
parse_table-ne-panicked t pid bytes r s =
    if-ne-panicked (pid == 0x0000) _ _ (λ x. parse_pat-ne-panicked bytes r s)
      λ x.
        if-ne-panicked (pid == 0x0010) _ _ (λ y. parse_nit-ne-panicked t bytes r)
          λ y.
            if-ne-panicked (pid == 0x0011) _ _ (λ z. parse_sdt-ne-panicked t bytes r s)
              λ z. ok-ne-panicked _

index-take : (bytes : List ℕ) (n i : ℕ) → i < n → index (take n bytes) i ≡ index bytes i
index-take [] zero i h = refl
index-take [] (suc n) i h = refl
index-take (b ∷ bytes) zero i h = absurd (omega arith)
index-take (b ∷ bytes) (suc n) zero h = refl
index-take (b ∷ bytes) (suc n) (suc i) h = index-take bytes n i (omega arith)

take-IsSection :
    (bytes : List ℕ) (b₁ b₂ : ℕ)
    → index bytes 1 ≡ ok b₁
    → index bytes 2 ≡ ok b₂
    → 3 + length_of b₁ b₂ ≤ length bytes
    → IsSection (take (3 + length_of b₁ b₂) bytes)
take-IsSection bytes b₁ b₂ e₁ e₂ h c₁ c₂ d₁ d₂ =
    let n : ℕ = 3 + length_of b₁ b₂ in
    let f₁ : ok b₁ ≡ ok c₁ = sym e₁ ∙ sym (index-take bytes n 1 (omega arith)) ∙ d₁ in
    let f₂ : ok b₂ ≡ ok c₂ = sym e₂ ∙ sym (index-take bytes n 2 (omega arith)) ∙ d₂ in
    let g₁ : b₁ ≡ c₁ = ground (arith, f₁) in
    let g₂ : b₂ ≡ c₂ = ground (arith, f₂) in
    rw (sym g₁, sym g₂) (omega (arith, length-take n bytes, h))

take_section-ne-panicked :
    (t : Text) (pid b₁ b₂ : ℕ) (buffer : SectionBuffer) (p : MinimalTsParser)
    → index buffer.bytes 1 ≡ ok b₁
    → index buffer.bytes 2 ≡ ok b₂
    → take_section t pid (3 + length_of b₁ b₂) buffer p ≢ panicked
unfolding take_section
take_section-ne-panicked t pid b₁ b₂ buffer p e₁ e₂ =
    let n : ℕ = 3 + length_of b₁ b₂ in
    let bytes = buffer.bytes in
    if-ne-panicked (ltb (length bytes) n) _ _ (λ x. ok-ne-panicked _)
      λ x.
        let h : n ≤ length bytes = le_of_ltb (length bytes) n x in
        let inside : (leb 0 n && leb n (length bytes)) ≡ true = ground (arith, h) in
        let whole : n - 0 ≡ n = omega arith in
        rw (inside, whole)
          (bind-ne-panicked _ _ (sub_slice-ne-panicked bytes n (length bytes) h (omega arith))
            λ rest.
              bind-ne-panicked _ _
                (parse_table-ne-panicked t pid (take n bytes) p.result
                  (take-IsSection bytes b₁ b₂ e₁ e₂ h))
                λ result. ok-ne-panicked _)

try_parse_section-ne-panicked :
    (t : Text) (pid : ℕ) (p : MinimalTsParser) → try_parse_section t pid p ≢ panicked
unfolding try_parse_section
try_parse_section-ne-panicked t pid p =
    let buffer : SectionBuffer = p.section_buffers pid in
    if-ne-panicked (ltb (length buffer.bytes) 3) _ _ (λ x. ok-ne-panicked _)
      λ x.
        let h = le_of_ltb (length buffer.bytes) 3 x in
        index-known buffer.bytes 1 _ (omega arith) λ b₁ e₁.
          index-known buffer.bytes 2 _ (omega arith)
            λ b₂ e₂. take_section-ne-panicked t pid b₁ b₂ buffer p e₁ e₂

start_section-ne-panicked :
    (t : Text) (pid : ℕ) (payload : List ℕ) (cc pointer : ℕ) (p : MinimalTsParser)
    → start_section t pid payload cc pointer p ≢ panicked
unfolding start_section
start_section-ne-panicked t pid payload cc' pointer p =
    if-ne-panicked (leb (length payload) (pointer + 1)) _ _ (λ x. ok-ne-panicked _)
      λ x.
        bind-ne-panicked _ _
          (sub_slice-ne-panicked payload (pointer + 1) (length payload) (ground arith)
            (omega arith))
          λ section_start. try_parse_section-ne-panicked t pid (
            put_buffer pid
              (record {
                bytes = section_start;
                expected_length = none;
                continuity_counter = some cc';
              })
              p)

continue_section-ne-panicked :
    (t : Text) (pid : ℕ) (payload : List ℕ) (cc' : ℕ) (p : MinimalTsParser)
    → continue_section t pid payload cc' p ≢ panicked
unfolding continue_section
continue_section-ne-panicked t pid payload cc' p =
    let buffer : SectionBuffer = p.section_buffers pid in
    if-ne-panicked (is_next buffer.continuity_counter cc') _ _
      (λ x. try_parse_section-ne-panicked t pid (
        put_buffer pid
          (record buffer { bytes = buffer.bytes ++ payload; continuity_counter = some cc' }) p))
      (λ x. ok-ne-panicked _)

process_payload-ne-panicked :
    (t : Text) (pid : ℕ) (payload : List ℕ) (start : Bool) (cc' : ℕ) (p : MinimalTsParser)
    → process_payload t pid payload start cc' p ≢ panicked
unfolding process_payload
process_payload-ne-panicked t pid payload true cc' p =
    if-ne-panicked (length payload == 0) _ _ (λ x. ok-ne-panicked _)
      λ x.
        index-then payload 0 _ (ground arith)
          λ pointer. start_section-ne-panicked t pid payload cc' pointer p
process_payload-ne-panicked t pid payload false cc' p =
    continue_section-ne-panicked t pid payload cc' p

payload_offset-ne-panicked : (packet : List ℕ) (field : ℕ) → payload_offset packet field ≢ panicked
unfolding payload_offset
payload_offset-ne-panicked packet field =
    if-ne-panicked (field == 1) _ _ (λ x. ok-ne-panicked _)
      λ x.
        if-ne-panicked (field == 3) _ _
          (λ y.
            if-ne-panicked (ltb (length packet) 5) _ _ (λ z. ok-ne-panicked _)
              λ z. index-then packet 4 _ (ground arith) λ n. ok-ne-panicked _)
          (λ y. ok-ne-panicked _)

process_at-ne-panicked :
    (t : Text) (packet : List ℕ) (pid : ℕ) (start : Bool) (cc' : ℕ) (o : Option ℕ)
    (p : MinimalTsParser)
    → process_at t packet pid start cc' o p ≢ panicked
unfolding process_at
process_at-ne-panicked t packet pid start cc' none p = ok-ne-panicked _
process_at-ne-panicked t packet pid start cc' (some offset) p =
    if-ne-panicked (leb (length packet) offset) _ _ (λ x. ok-ne-panicked _)
      λ x.
        bind-ne-panicked _ _
          (sub_slice-ne-panicked packet offset (length packet) (ground arith) (omega arith))
          λ payload. process_payload-ne-panicked t pid payload start cc' p

process_header-ne-panicked :
    (t : Text) (packet : List ℕ) (b₁ b₂ b₃ : ℕ) (p : MinimalTsParser)
    → process_header t packet b₁ b₂ b₃ p ≢ panicked
unfolding process_header
process_header-ne-panicked t packet b₁ b₂ b₃ p =
    let pid : ℕ = pid_of b₁ b₂ in
    if-ne-panicked (has_bits b₁ 0x80 || not (bit_and (b₃ / 64) 0x03 == 0) || pid == 0x1FFF) (ok p) _
      (λ x. ok-ne-panicked p)
      λ x.
        if-ne-panicked (not (is_wanted pid)) (ok p) _ (λ y. ok-ne-panicked p)
          λ y.
            bind-ne-panicked (payload_offset packet (bit_and (b₃ / 16) 0x03)) _
              (payload_offset-ne-panicked packet (bit_and (b₃ / 16) 0x03))
              λ offset.
                process_at-ne-panicked t packet pid (has_bits b₁ 0x40) (bit_and b₃ 0x0F) offset p

process_packet-ne-panicked :
    (t : Text) (packet : List ℕ) (p : MinimalTsParser) → process_packet t packet p ≢ panicked
unfolding process_packet
process_packet-ne-panicked t packet p =
    if-ne-panicked (ltb (length packet) 4) _ _ (λ x. ok-ne-panicked _)
      λ x.
        let h = le_of_ltb (length packet) 4 x in
        index-then packet 0 _ (omega arith) λ b₀.
          if-ne-panicked (not (b₀ == 0x47)) _ _ (λ y. ok-ne-panicked _)
            λ y. index-then packet 1 _ (omega arith) λ b₁. index-then packet 2 _ (omega arith) λ b₂.
              index-then packet 3 _ (omega arith)
                λ b₃. process_header-ne-panicked t packet b₁ b₂ b₃ p

feed_packets-ne-panicked :
    (t : Text) (n : ℕ) (bytes : List ℕ) (p : MinimalTsParser) → feed_packets t n bytes p ≢ panicked
unfolding feed_packets
feed_packets-ne-panicked t zero bytes p = ok-ne-panicked _
feed_packets-ne-panicked t (suc n) bytes p =
    if-ne-panicked (ltb (length bytes) 188) _ _ (λ x. ok-ne-panicked _)
      λ x.
        let h = le_of_ltb (length bytes) 188 x in
        index-then bytes 0 _ (omega arith) λ b.
          if-ne-panicked (b == 0x47) _ _
            (λ y. bind-ne-panicked _ _ (sub_slice-ne-panicked bytes 0 188 (omega arith) h) λ packet.
              bind-ne-panicked _ _ (process_packet-ne-panicked t packet p)
                λ p'. feed_packets-ne-panicked t n (drop 188 bytes) p')
            (λ y. feed_packets-ne-panicked t n (drop 1 bytes) p)

find_sync-ne-panicked : (n : ℕ) (bytes : List ℕ) → find_sync n bytes ≢ panicked
unfolding find_sync
find_sync-ne-panicked zero bytes = ok-ne-panicked _
find_sync-ne-panicked (suc n) bytes =
    if-ne-panicked (length bytes == 0) _ _ (λ x. ok-ne-panicked _)
      λ x. index-then bytes 0 _ (ground arith) λ b.
        if-ne-panicked (not (b == 0x47)) _ _ (λ y. find_sync-ne-panicked n (drop 1 bytes))
          λ y. ok-ne-panicked _

-- The parser of the passive scanner takes any bytes, in any state, and does not panic: no index, slice or
-- subtraction is out of bounds.
pub feed-ne-panicked : (t : Text) (bytes : List ℕ) (p : MinimalTsParser) → feed t bytes p ≢ panicked
unfolding feed
feed-ne-panicked t bytes p =
    bind-ne-panicked _ _ (find_sync-ne-panicked (length bytes) bytes) λ found.
      bind-ne-panicked _ _ (feed_packets-ne-panicked t (length bytes) found p)
        λ p'. ok-ne-panicked _
