-- ===== src/Ts/Filter/Panics.antt =====
-- Where the service filter can panic, and where it cannot.
use recisdb_proxy_rs.Base.{
  ℕ, ◌+◌, ◌≤◌, ◌<◌, ◌≡◌, refl, Bool, true, false, none, some, List, ◌∷◌, ◌++◌, suc, ap, length,
  take, ltb, leb, arith, ok, err,
}
use recisdb_proxy_rs.Ts.Access.{section_length_too_small}
use recisdb_proxy_rs.Ts.Packet
use recisdb_proxy_rs.Ts.Packet.{TsPacket}
use recisdb_proxy_rs.Ts.Psi
use recisdb_proxy_rs.Ts.Psi.{length_of, parse_rest}
use recisdb_proxy_rs.Ts.Collector.{SectionCollector, add_data, get_section}
use recisdb_proxy_rs.Ts.Collector.Reassembly.{collecting, started, collected}
use recisdb_proxy_rs.Ts.Filter.{
  TsServiceFilter, process_pat_section, collect_pat, process_pat_packet,
}

pub added_start :
    (c : SectionCollector) (payload skipped : List ℕ) (b₀ b₁ b₂ : ℕ) (rest : List ℕ) (counter : ℕ)
    (start : Bool)
    → payload ≡ length skipped ∷ skipped ++ b₀ ∷ b₁ ∷ b₂ ∷ rest
    → start ≡ true
    → length_of b₁ b₂ ≤ length rest
    → add_data payload counter start c
      ≡ (collecting (b₀ ∷ b₁ ∷ b₂ ∷ rest) (3 + length_of b₁ b₂) counter, true)
added_start c payload skipped b₀ b₁ b₂ rest counter start e t h =
    let done : leb (3 + length_of b₁ b₂) (length (b₀ ∷ b₁ ∷ b₂ ∷ rest)) ≡ true = ground arith in
    rw (e, t) (rw (started c skipped b₀ b₁ b₂ rest counter) (rw done refl))

pub whole_section :
    (b₀ b₁ b₂ : ℕ) (rest : List ℕ) (counter : ℕ)
    → length_of b₁ b₂ ≤ length rest
    → get_section (collecting (b₀ ∷ b₁ ∷ b₂ ∷ rest) (3 + length_of b₁ b₂) counter)
      ≡ some (b₀ ∷ b₁ ∷ b₂ ∷ take (length_of b₁ b₂) rest)
whole_section b₀ b₁ b₂ rest counter h =
    let n = length_of b₁ b₂ in
    let done : leb (3 + n) (length (b₀ ∷ b₁ ∷ b₂ ∷ rest)) ≡ true = ground arith in
    let three : 3 + n ≡ suc (suc (suc n)) = omega arith in
    rw (collected (b₀ ∷ b₁ ∷ b₂ ∷ rest) (3 + n) counter)
      (rw done (ap (λ m. some (take m (b₀ ∷ b₁ ∷ b₂ ∷ rest))) three))

short_section-parse :
    (b₀ b₁ b₂ : ℕ) (rest : List ℕ)
    → length_of b₁ b₂ < 5
    → Psi.parse (b₀ ∷ b₁ ∷ b₂ ∷ rest) ≡ err section_length_too_small
unfolding Psi.parse parse_rest
short_section-parse b₀ b₁ b₂ rest h =
    let long : ltb (length (b₀ ∷ b₁ ∷ b₂ ∷ rest)) 3 ≡ false = ground arith in
    let short : ltb (length_of b₁ b₂) 5 ≡ true = ground arith in rw long (rw short refl)

short_section-panics :
    (section : List ℕ) (f : TsServiceFilter)
    → Psi.parse section ≡ err section_length_too_small
    → process_pat_section section f ≡ none
unfolding process_pat_section
short_section-panics section f e = rw (e, process_pat_section) refl

-- A packet on the PAT's PID that starts a section whose length field is below 5, and that holds all
-- of it, makes the filter panic in any state: the section's parser refuses it, and the result is
-- unwrapped.
pub process_pat_packet-panics :
    (f : TsServiceFilter) (bytes : List ℕ) (packet : TsPacket) (skipped : List ℕ) (b₀ b₁ b₂ : ℕ)
    (rest : List ℕ)
    → Packet.parse bytes ≡ ok packet
    → packet.header.payload_unit_start ≡ true
    → packet.payload ≡ length skipped ∷ skipped ++ b₀ ∷ b₁ ∷ b₂ ∷ rest
    → length_of b₁ b₂ < 5
    → length_of b₁ b₂ ≤ length rest
    → process_pat_packet bytes f ≡ none
unfolding process_pat_packet collect_pat
process_pat_packet-panics f bytes packet skipped b₀ b₁ b₂ rest e t p small fits =
    let counter = packet.header.continuity_counter in
    rw (e, process_pat_packet)
      (rw
        (added_start f.pat_collector packet.payload skipped b₀ b₁ b₂ rest counter
          packet.header.payload_unit_start p t fits)
        (rw (whole_section b₀ b₁ b₂ rest counter fits) (
          short_section-panics (b₀ ∷ b₁ ∷ b₂ ∷ take (length_of b₁ b₂) rest) _
            (short_section-parse b₀ b₁ b₂ (take (length_of b₁ b₂) rest) small))))
