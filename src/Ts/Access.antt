-- ===== src/Ts/Access.antt =====
-- Indexing and slicing of byte slices, which panic out of bounds, and the errors of the parsers.
use recisdb_proxy_rs.Base.{
  ℕ, ◌-◌, Option, none, some, List, get_elem?, take, drop, length, leb, if◌then◌else◌, ◌&&◌,
  Outcome, ok, panicked, and_then,
}

-- The messages of the parsers' errors.
pub data TsError : Type 0 where
  packet_too_short invalid_sync_byte : TsError
  section_too_short section_length_too_small incomplete_section : TsError
  no_extended_header no_data : TsError
  not_pat invalid_pat_length : TsError
  not_pmt pmt_too_short invalid_program_info_length : TsError

abbrev pub Parse : Type 0 → Type 0
Parse A = Outcome TsError A

infixl 5 ◌>>=◌
abbrev pub ◌>>=◌ : {A B : Type 0} → Parse A → (A → Parse B) → Parse B
m >>= f = and_then m f

abbrev pub or_panic : {A : Type 0} → Option A → Parse A
or_panic none = panicked
or_panic (some a) = ok a

-- `data[i]`.
abbrev pub index : List ℕ → ℕ → Parse ℕ
index bytes i = or_panic (get_elem? bytes i)

-- `data[from..to]`.
abbrev pub sub_slice : List ℕ → ℕ → ℕ → Parse (List ℕ)
sub_slice bytes from to =
    if leb from to && leb to (length bytes)
    then ok (take (to - from) (drop from bytes))
    else panicked
