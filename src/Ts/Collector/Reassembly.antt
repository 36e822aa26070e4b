-- ===== src/Ts/Collector/Reassembly.antt =====
-- A section that comes in several packets is joined again.
use Prim.Native.Nat.{bit_and}
use recisdb_proxy_rs.Base.{
  ℕ, ◌+◌, ◌%◌, ◌<◌, ◌≡◌, refl, sym, ◌∙◌, Bool, true, false, not, ◌&&◌, Option, none, some, List, [],
  ◌∷◌, ◌++◌, concat, append_assoc, append-nil, length, length-append, take, drop, leb, ◌==◌,
  if◌then◌else◌, arith,
}
use recisdb_proxy_rs.Base.Bits.{mask_4}
use recisdb_proxy_rs.Ts.Psi.{length_of}
use recisdb_proxy_rs.Ts.Collector.{
  SectionCollector, check_cc, expected_of, is_complete, start_section, continue_section, add_data,
  get_section, clear, new,
}

-- The collector that has `buffer` of a section of `n` bytes, the last packet's counter `cc`.
abbrev pub collecting : List ℕ → ℕ → ℕ → SectionCollector
collecting buffer n cc = record { buffer = buffer; expected_length = some n; last_cc = some cc }

pub drop-skipped : (skipped section : List ℕ) → drop (length skipped) (skipped ++ section) ≡ section
drop-skipped [] section = refl
drop-skipped (x ∷ xs) section = drop-skipped xs section

pub started :
    (c : SectionCollector) (skipped : List ℕ) (b₀ b₁ b₂ : ℕ) (rest : List ℕ) (cc : ℕ)
    → add_data (length skipped ∷ skipped ++ b₀ ∷ b₁ ∷ b₂ ∷ rest) cc true c ≡ (
      collecting (b₀ ∷ b₁ ∷ b₂ ∷ rest) (3 + length_of b₁ b₂) cc,
      leb (3 + length_of b₁ b₂) (length (b₀ ∷ b₁ ∷ b₂ ∷ rest)),
    )
unfolding add_data start_section expected_of is_complete
started c skipped b₀ b₁ b₂ rest cc =
    let section = b₀ ∷ b₁ ∷ b₂ ∷ rest in
    let inside : leb (length (length skipped ∷ skipped ++ section)) (length skipped + 1) ≡ false =
      ground (arith, length-append skipped section) in
    rw (inside, drop-skipped skipped section) refl

-- The next packet in order extends the buffer.
extended :
    (b : ℕ) (bs chunk : List ℕ) (n cc : ℕ)
    → cc < 16
    → add_data chunk ((cc + 1) % 16) false (collecting (b ∷ bs) n cc)
      ≡ (collecting (b ∷ bs ++ chunk) n ((cc + 1) % 16), leb n (length (b ∷ bs ++ chunk)))
unfolding add_data check_cc continue_section is_complete
extended b bs chunk n cc h =
    let next : (((cc + 1) % 16) == bit_and (cc + 1) 0x0F) ≡ true =
      ground (arith, mask_4 (cc + 1)) in
    rw next refl

pub collected :
    (buffer : List ℕ) (n cc : ℕ)
    → get_section (collecting buffer n cc)
      ≡ (if leb n (length buffer) then some (take n buffer) else none)
unfolding get_section
collected buffer n cc = refl

-- Packets without a section start, each with the counter that follows the last one.
unfoldable pub feed : ℕ → List (List ℕ) → SectionCollector → SectionCollector
feed cc [] c = c
feed cc (chunk ∷ chunks) c = feed ((cc + 1) % 16) chunks (add_data chunk ((cc + 1) % 16) false c).0

feed-collecting :
    (chunks : List (List ℕ)) (b : ℕ) (bs : List ℕ) (n cc : ℕ)
    → cc < 16
    → get_section (feed cc chunks (collecting (b ∷ bs) n cc)) ≡ (
        if leb n (length (b ∷ bs ++ concat chunks))
        then some (take n (b ∷ bs ++ concat chunks))
        else none)
unfolding feed
feed-collecting [] b bs n cc h = rw (append-nil bs) (collected (b ∷ bs) n cc)
feed-collecting (chunk ∷ chunks) b bs n cc h = rw (extended b bs chunk n cc h) (
    rw (sym (append_assoc bs chunk (concat chunks)))
      (feed-collecting chunks b (bs ++ chunk) n ((cc + 1) % 16) (omega arith)))

-- A section starts behind the pointer field of a packet, three bytes of it or more in that packet,
-- and goes on in packets whose counters follow. Whatever the collector held before, it gives exactly
-- the bytes of the section, once as many have come as its header says, and nothing earlier.
pub feed-section :
    (c : SectionCollector) (skipped : List ℕ) (b₀ b₁ b₂ : ℕ) (rest : List ℕ)
    (chunks : List (List ℕ)) (cc : ℕ)
    → cc < 16
    → let n = 3 + length_of b₁ b₂ in
      let all = b₀ ∷ b₁ ∷ b₂ ∷ rest ++ concat chunks in
      get_section
        (feed cc chunks (add_data (length skipped ∷ skipped ++ b₀ ∷ b₁ ∷ b₂ ∷ rest) cc true c).0)
      ≡ (if leb n (length all) then some (take n all) else none)
feed-section c skipped b₀ b₁ b₂ rest chunks cc h =
    rw (started c skipped b₀ b₁ b₂ rest cc)
      (feed-collecting chunks b₀ (b₁ ∷ b₂ ∷ rest) (3 + length_of b₁ b₂) cc h)

continue_section-unknown :
    (c : SectionCollector) (chunk : List ℕ)
    → c.expected_length ≡ none
    → (continue_section c chunk).expected_length ≡ none
unfolding continue_section
continue_section-unknown c chunk h = go c.buffer
  where
    go :
        (buffer : List ℕ)
        → let r : SectionCollector = elim buffer [
          | [] ↦ c
          | b ∷ bs ↦ record c { buffer = (b ∷ bs) ++ chunk }
        ] in
          r.expected_length ≡ none
    go [] = h
    go (b ∷ bs) = h

check_cc-unknown :
    (c : SectionCollector) (cc : ℕ) (start : Bool)
    → c.expected_length ≡ none
    → (check_cc c cc start).expected_length ≡ none
unfolding check_cc clear new
check_cc-unknown c cc start h = go c.last_cc
  where
    reset : (t : Bool) → (if t then clear c else c).expected_length ≡ none
    reset true = refl
    reset false = h

    go :
        (last_cc : Option ℕ)
        → let r : SectionCollector = elim last_cc [
          | none ↦ c
          | some last ↦ if not (cc == bit_and (last + 1) 0x0F) && not start then clear c else c
        ] in
          r.expected_length ≡ none
    go none = h
    go (some last) = reset (not (cc == bit_and (last + 1) 0x0F) && not start)

continue-unknown :
    (chunk : List ℕ) (cc : ℕ) (c : SectionCollector)
    → c.expected_length ≡ none
    → (add_data chunk cc false c).0.expected_length ≡ none
unfolding add_data
continue-unknown chunk cc c h =
    continue_section-unknown (record (check_cc c cc false) { last_cc = some cc }) chunk
      (check_cc-unknown c cc false h)

-- While no length is known, packets without a start leave it so.
feed-unknown :
    (chunks : List (List ℕ)) (c : SectionCollector) (cc : ℕ)
    → c.expected_length ≡ none
    → (feed cc chunks c).expected_length ≡ none
unfolding feed
feed-unknown [] c cc h = h
feed-unknown (chunk ∷ chunks) c cc h =
    feed-unknown chunks (add_data chunk ((cc + 1) % 16) false c).0 ((cc + 1) % 16)
      (continue-unknown chunk ((cc + 1) % 16) c h)

unknown-get_section : (c : SectionCollector) → c.expected_length ≡ none → get_section c ≡ none
unfolding get_section
unknown-get_section c h = rw h refl

expected_of-short :
    (section : List ℕ) (old : Option ℕ) → length section < 3 → expected_of section old ≡ old
unfolding expected_of
expected_of-short [] old h = refl
expected_of-short (b₀ ∷ []) old h = refl
expected_of-short (b₀ ∷ b₁ ∷ []) old h = refl
expected_of-short (b₀ ∷ b₁ ∷ b₂ ∷ rest) old h = absurd (omega arith)

short_started :
    (c : SectionCollector) (skipped section : List ℕ) (cc : ℕ)
    → c.expected_length ≡ none
    → 0 < length section
    → length section < 3
    → (add_data (length skipped ∷ skipped ++ section) cc true c).0.expected_length ≡ none
unfolding add_data start_section
short_started c skipped section cc h more few =
    let inside : leb (length (length skipped ∷ skipped ++ section)) (length skipped + 1) ≡ false =
      ground (arith, length-append skipped section) in
    rw (inside, drop-skipped skipped section)
      (expected_of-short section (check_cc c cc true).expected_length few
        ∙ check_cc-unknown c cc true h)

-- A start packet with one or two bytes of the section, in a collector that knows no length: the
-- length is read at a start only, so whatever follows in order, the section is never given.
pub feed-short_start :
    (c : SectionCollector) (skipped section : List ℕ) (chunks : List (List ℕ)) (cc : ℕ)
    → c.expected_length ≡ none
    → 0 < length section
    → length section < 3
    → get_section (feed cc chunks (add_data (length skipped ∷ skipped ++ section) cc true c).0)
      ≡ none
feed-short_start c skipped section chunks cc h more few =
    let start = short_started c skipped section cc h more few in
    unknown-get_section _ (feed-unknown chunks _ cc start)
