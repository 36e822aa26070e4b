-- ===== src/Ts/Collector.antt =====
-- recisdb-proxy/src/ts_analyzer/psi.rs: `SectionCollector`, which joins a section's packets.
pub mod Reassembly
use Prim.Native.Nat.{bit_and}
use recisdb_proxy_rs.Base.{
  ℕ, ◌+◌, Bool, false, not, ◌&&◌, Option, none, some, List, [], ◌∷◌, ◌++◌, length, take, drop, leb,
  ◌==◌, if◌then◌else◌,
}
use recisdb_proxy_rs.Ts.Psi.{length_of}

pub record SectionCollector : Type 0 where
  pub buffer : List ℕ
  pub expected_length : Option ℕ
  pub last_cc : Option ℕ

unfoldable pub new : SectionCollector
new = record { buffer = []; expected_length = none; last_cc = none }

unfoldable pub clear : SectionCollector → SectionCollector
unfolding new
clear c = new

-- The continuity check at the start of `add_data`. A counter has four bits, as `add_data` gets it from a
-- packet's header, so that `last + 1` fits a byte.
unfoldable pub check_cc : SectionCollector → ℕ → Bool → SectionCollector
check_cc c cc start = elim c.last_cc [
  | none ↦ c
  | some last ↦ if not (cc == bit_and (last + 1) 0x0F) && not start then clear c else c
]

-- `Some(3 + section_length)` once three bytes are there; a shorter start leaves the field alone.
unfoldable pub expected_of : List ℕ → Option ℕ → Option ℕ
expected_of (b₀ ∷ b₁ ∷ b₂ ∷ rest) old = some (3 + length_of b₁ b₂)
expected_of _ old = old

unfoldable pub is_complete : SectionCollector → Bool
is_complete c = elim c.expected_length [
  | none ↦ false
  | some expected ↦ leb expected (length c.buffer)
]

unfoldable pub start_section : SectionCollector → List ℕ → SectionCollector × Bool
start_section c [] = (c, false)
start_section c (pointer ∷ rest) =
    if leb (length (pointer ∷ rest)) (pointer + 1)
    then (c, false)
    else (let section = drop pointer rest in
        let started = record c {
          buffer = section;
          expected_length = expected_of section c.expected_length;
        } in
        (started, is_complete started))

unfoldable pub continue_section : SectionCollector → List ℕ → SectionCollector
continue_section c payload = elim c.buffer [
  | [] ↦ c
  | b ∷ bs ↦ record c { buffer = (b ∷ bs) ++ payload }
]

unfoldable pub add_data : List ℕ → ℕ → Bool → SectionCollector → SectionCollector × Bool
add_data payload cc payload_unit_start c =
    let seen = record (check_cc c cc payload_unit_start) { last_cc = some cc } in
    if payload_unit_start
    then start_section seen payload
    else (continue_section seen payload, is_complete (continue_section seen payload))

unfoldable pub get_section : SectionCollector → Option (List ℕ)
get_section c = elim c.expected_length [
  | none ↦ none
  | some len ↦ if leb len (length c.buffer) then some (take len c.buffer) else none
]
