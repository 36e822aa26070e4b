-- ===== src/Ts/Tables.antt =====
-- recisdb-proxy/src/ts_analyzer/pat.rs and pmt.rs: the two program tables.
pub mod Streams
use recisdb_proxy_rs.Base.{
  ℕ, zero, suc, ◌+◌, ◌%◌, Option, none, some, map, List, [], ◌∷◌, ◌++◌, length, take, drop, ltb,
  ◌==◌, if◌then◌else◌, ok, err, panicked,
}
use recisdb_proxy_rs.Ts.Access.{
  not_pat, invalid_pat_length, not_pmt, pmt_too_short, invalid_program_info_length, Parse, ◌>>=◌,
  index, sub_slice,
}
use recisdb_proxy_rs.Ts.Packet.{pid_of}
use recisdb_proxy_rs.Ts.Psi.{PsiSection, word_of, length_of}

abbrev pub pat_table_id : ℕ
pat_table_id = 0x00

abbrev pub pmt_table_id : ℕ
pmt_table_id = 0x02

pub record PatEntry : Type 0 where
  pub program_number : ℕ
  pub pid : ℕ

pub record PatTable : Type 0 where
  pub transport_stream_id : ℕ
  pub version_number : ℕ
  pub programs : List PatEntry
  pub nit_pid : Option ℕ

-- One chunk of `parse`: program 0 names the network table, the last one standing.
unfoldable pub add_program : ℕ → ℕ → PatTable → PatTable
add_program program_number pid pat =
    if program_number == 0 then record pat { nit_pid = some pid } else record pat {
      programs = pat.programs ++ record { program_number = program_number; pid = pid } ∷ [];
    }

-- The loop over `chunks(4)`: indexing a chunk that is too short panics.
unfoldable pub add_programs : List ℕ → PatTable → Parse PatTable
unfolding word_of pid_of add_program
add_programs [] pat = ok pat
add_programs (b₀ ∷ b₁ ∷ b₂ ∷ b₃ ∷ rest) pat =
    add_programs rest (add_program (word_of b₀ b₁) (pid_of b₂ b₃) pat)
add_programs chunk pat = panicked

unfoldable pub pat_of : PsiSection → PatTable
pat_of s = record {
  transport_stream_id = s.header.table_id_extension;
  version_number = s.header.version_number;
  programs = [];
  nit_pid = none;
}

unfoldable pub parse_pat : PsiSection → Parse PatTable
unfolding add_programs
parse_pat s =
    if s.header.table_id == pat_table_id
    then if length s.body % 4 == 0 then add_programs s.body (pat_of s) else err invalid_pat_length
    else err not_pat

-- `find` over the programs.
unfoldable pub find_program : ℕ → List PatEntry → Option ℕ
find_program n [] = none
find_program n (entry ∷ entries) =
    let rest = find_program n entries in if entry.program_number == n then some entry.pid else rest

unfoldable pub get_pmt_pid : ℕ → PatTable → Option ℕ
get_pmt_pid n pat = find_program n pat.programs

unfoldable pub get_all_pmt_pids : PatTable → List ℕ
get_all_pmt_pids pat = map (λ entry. entry.pid) pat.programs

unfoldable pub get_all_program_numbers : PatTable → List ℕ
get_all_program_numbers pat = map (λ entry. entry.program_number) pat.programs

pub record PmtStream : Type 0 where
  pub stream_type : ℕ
  pub elementary_pid : ℕ
  pub descriptors : List ℕ

pub record PmtTable : Type 0 where
  pub program_number : ℕ
  pub version_number : ℕ
  pub pcr_pid : ℕ
  pub program_info : List ℕ
  pub streams : List PmtStream

-- The elementary stream loop on the bytes from `offset` on; each round takes five bytes or more, so
-- the length of the bytes is fuel enough.
unfoldable pub parse_streams : ℕ → List ℕ → Parse (List PmtStream)
unfolding pid_of length_of
parse_streams zero bytes = ok []
parse_streams (suc n) bytes = if ltb (length bytes) 5 then ok [] else (do
  b₀ ← index bytes 0
  b₁ ← index bytes 1
  b₂ ← index bytes 2
  b₃ ← index bytes 3
  b₄ ← index bytes 4
  if ltb (length bytes) (5 + length_of b₃ b₄) then ok [] else (do
    descriptors ← sub_slice bytes 5 (5 + length_of b₃ b₄)
    later ← parse_streams n (drop (5 + length_of b₃ b₄) bytes)
    ok (
        record { stream_type = b₀; elementary_pid = pid_of b₁ b₂; descriptors = descriptors }
        ∷ later)))

-- `parse` behind its guard on the program information.
unfoldable pub pmt_of : PsiSection → ℕ → ℕ → Parse PmtTable
unfolding parse_streams
pmt_of s pcr_pid program_info_length = do
  program_info ← sub_slice s.body 4 (4 + program_info_length)
  streams ← parse_streams (length s.body) (drop (4 + program_info_length) s.body)
  ok (record {
    program_number = s.header.table_id_extension;
    version_number = s.header.version_number;
    pcr_pid = pcr_pid;
    program_info = program_info;
    streams = streams;
  })

unfoldable pub parse_pmt_info : PsiSection → ℕ → ℕ → Parse PmtTable
unfolding pmt_of
parse_pmt_info s pcr_pid program_info_length =
    if ltb (length s.body) (4 + program_info_length)
    then err invalid_program_info_length
    else pmt_of s pcr_pid program_info_length

unfoldable pub parse_pmt : PsiSection → Parse PmtTable
unfolding parse_pmt_info pid_of length_of
parse_pmt s =
    if s.header.table_id == pmt_table_id
    then if ltb (length s.body) 4 then err pmt_too_short else (do
      b₀ ← index s.body 0
      b₁ ← index s.body 1
      b₂ ← index s.body 2
      b₃ ← index s.body 3
      parse_pmt_info s (pid_of b₀ b₁) (length_of b₂ b₃))
    else err not_pmt
