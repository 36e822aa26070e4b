-- ===== src/Ts/Minimal/Tables.antt =====
-- recisdb-proxy/src/tuner/ts_parser.rs: the tables that the parser of the passive scanner reads.
pub mod PanicFree
use recisdb_proxy_rs.Base.{
  ℕ, zero, suc, ◌+◌, ◌-◌, min, Bool, true, false, ◌&&◌, ◌||◌, not, Option, none, some, List, [],
  ◌∷◌, length, take, drop, ltb, leb, ◌==◌, if◌then◌else◌, ok, panicked,
}
use recisdb_proxy_rs.Ts.Access.{Parse, ◌>>=◌, index, sub_slice}
use recisdb_proxy_rs.Ts.Psi.{length_of, word_of}

-- `String::from_utf8` and `String::from_utf8_lossy`, from bytes to a string's bytes.
pub record Text : Type 0 where
  pub from_utf8 : List ℕ → Option (List ℕ)
  pub from_utf8_lossy : List ℕ → List ℕ

pub record ServiceInfo : Type 0 where
  pub service_id : ℕ
  pub service_name : Option (List ℕ)
  pub service_type : Option ℕ
  pub provider_name : Option (List ℕ)

-- `services` is the map from ids to services.
pub record ParseResult : Type 0 where
  pub network_id : Option ℕ
  pub transport_stream_id : Option ℕ
  pub network_name : Option (List ℕ)
  pub services : List (ℕ × ServiceInfo)
  pub has_pat : Bool
  pub has_nit : Bool
  pub has_sdt : Bool

unfoldable pub empty_result : ParseResult
empty_result = record {
  network_id = none;
  transport_stream_id = none;
  network_name = none;
  services = [];
  has_pat = false;
  has_nit = false;
  has_sdt = false;
}

unfoldable pub new_service : ℕ → ServiceInfo
new_service id = record {
  service_id = id;
  service_name = none;
  service_type = none;
  provider_name = none;
}

-- `entry(id).or_insert_with(..)`, then a change of the entry.
unfoldable pub change_service :
    ℕ → (ServiceInfo → ServiceInfo) → List (ℕ × ServiceInfo) → List (ℕ × ServiceInfo)
unfolding new_service
change_service id f [] = (id, f (new_service id)) ∷ []
change_service id f (e ∷ es) =
    let later = change_service id f es in if e.0 == id then (e.0, f e.1) ∷ es else e ∷ later

-- `trim_end_matches('\0')`.
unfoldable pub trim_end : List ℕ → List ℕ
trim_end [] = []
trim_end (c ∷ cs) = let rest = trim_end cs in if c == 0 && length rest == 0 then [] else c ∷ rest

-- The loop behind an escape: `i` goes up to 4, so that four rounds are enough.
unfoldable pub escape_end : ℕ → List ℕ → ℕ → Parse ℕ
escape_end zero bytes i = ok i
escape_end (suc n) bytes i =
    if leb (length bytes) i
    then ok i
    else (do b ← index bytes i; if b == 0x1B || leb 4 i then ok i else escape_end n bytes (i + 1))

unfoldable pub text_start : List ℕ → Parse ℕ
unfolding escape_end
text_start bytes = do b₀ ← index bytes 0; if b₀ == 0x1B then escape_end 4 bytes 1 else ok 0

unfoldable pub text_of : Option (List ℕ) → List ℕ → List ℕ
unfolding trim_end
text_of (some s) lossy = trim_end s
text_of none lossy = trim_end lossy

unfoldable pub decode_arib_string : Text → List ℕ → Parse (Option (List ℕ))
unfolding text_start text_of
decode_arib_string t bytes = if length bytes == 0 then ok none else (do
  start ← text_start bytes
  if leb (length bytes) start then ok none else (do
    text_data ← sub_slice bytes start (length bytes)
    ok (some (text_of (t.from_utf8 text_data) (t.from_utf8_lossy text_data)))))

-- `min(3 + section_length - 4, data.len())`: the subtraction overflows for an empty section.
unfoldable pub section_end : ℕ → ℕ → Parse ℕ
section_end section_length len =
    if leb 4 (3 + section_length) then ok (min (3 + section_length - 4) len) else panicked

-- The loops keep the offset of the source. Each round moves it on, so that the length of the bytes is
-- fuel enough.
unfoldable pub add_services :
    List ℕ → ℕ → ℕ → ℕ → List (ℕ × ServiceInfo) → Parse (List (ℕ × ServiceInfo))
unfolding change_service word_of
add_services bytes end zero offset s = ok s
add_services bytes end (suc n) offset s = if ltb end (offset + 4) then ok s else (do
  b₀ ← index bytes offset
  b₁ ← index bytes (offset + 1)
  add_services bytes end n (offset + 4)
      (if word_of b₀ b₁ == 0 then s else change_service (word_of b₀ b₁) (λ info. info) s))

unfoldable pub parse_pat : List ℕ → ParseResult → Parse ParseResult
unfolding length_of word_of section_end add_services
parse_pat bytes r = if ltb (length bytes) 8 then ok r else (do
  table_id ← index bytes 0
  if not (table_id == 0x00) then ok r else (do
    b₁ ← index bytes 1
    b₂ ← index bytes 2
    b₃ ← index bytes 3
    b₄ ← index bytes 4
    end ← section_end (length_of b₁ b₂) (length bytes)
    services ← add_services bytes end (length bytes) 8 r.services
    ok (record r {
      transport_stream_id = some (word_of b₃ b₄);
      has_pat = true;
      services = services;
    })))

unfoldable pub or_old : Option (List ℕ) → Option (List ℕ) → Option (List ℕ)
or_old none old = old
or_old (some name) old = some name

-- One descriptor of the network.
unfoldable pub network_descriptor :
    Text → ℕ → ℕ → List ℕ → ℕ → Option (List ℕ) → Parse (Option (List ℕ))
unfolding decode_arib_string or_old
network_descriptor t tag len bytes offset old =
    if tag == 0x40 && ltb 0 len
    then (do
      name_data ← sub_slice bytes (offset + 2) (offset + 2 + len)
      name ← decode_arib_string t name_data
      ok (or_old name old))
    else ok old

unfoldable pub parse_network_descriptors :
    Text → List ℕ → ℕ → ℕ → Option (List ℕ) → Parse (Option (List ℕ))
unfolding network_descriptor
parse_network_descriptors t bytes zero offset name = ok name
parse_network_descriptors t bytes (suc n) offset name =
    if ltb (length bytes) (offset + 2) then ok name else (do
      tag ← index bytes offset
      len ← index bytes (offset + 1)
      if ltb (length bytes) (offset + 2 + len) then ok name else (do
        name' ← network_descriptor t tag len bytes offset name
        parse_network_descriptors t bytes n (offset + 2 + len) name'))

unfoldable pub network_name_of : Text → List ℕ → ℕ → Option (List ℕ) → Parse (Option (List ℕ))
unfolding parse_network_descriptors
network_name_of t bytes desc_end name =
    if ltb 10 desc_end
    then (sub_slice bytes 10 desc_end >>= λ descriptors.
        parse_network_descriptors t descriptors (length descriptors) 0 name)
    else ok name

unfoldable pub parse_nit : Text → List ℕ → ParseResult → Parse ParseResult
unfolding length_of word_of network_name_of
parse_nit t bytes r = if ltb (length bytes) 10 then ok r else (do
  table_id ← index bytes 0
  if not (table_id == 0x40) then ok r else (do
    b₃ ← index bytes 3
    b₄ ← index bytes 4
    b₈ ← index bytes 8
    b₉ ← index bytes 9
    name ← network_name_of t bytes (min (10 + length_of b₈ b₉) (length bytes)) r.network_name
    ok (record r { network_id = some (word_of b₃ b₄); has_nit = true; network_name = name })))

-- The names of a service descriptor.
unfoldable pub provider_of : Text → List ℕ → ℕ → Parse (Option (List ℕ))
unfolding decode_arib_string
provider_of t desc n =
    if ltb 0 n && leb (2 + n) (length desc)
    then (sub_slice desc 2 (2 + n) >>= decode_arib_string t)
    else ok none

unfoldable pub name_at : Text → List ℕ → ℕ → ℕ → Parse (Option (List ℕ))
unfolding decode_arib_string
name_at t desc offset n =
    if leb (offset + n) (length desc)
    then (sub_slice desc offset (offset + n) >>= decode_arib_string t)
    else ok none

unfoldable pub name_of : Text → List ℕ → ℕ → Parse (Option (List ℕ))
unfolding name_at
name_of t desc name_offset =
    if leb (name_offset + 1) (length desc)
    then (index desc name_offset >>= λ n. name_at t desc (name_offset + 1) n)
    else ok none

unfoldable pub describe : ℕ → Option (List ℕ) → Option (List ℕ) → ServiceInfo → ServiceInfo
unfolding or_old
describe service_type name provider info = record info {
  service_type = some service_type;
  service_name = or_old name info.service_name;
  provider_name = or_old provider info.provider_name;
}

unfoldable pub service_descriptor :
    Text → ℕ → List ℕ → List (ℕ × ServiceInfo) → Parse (List (ℕ × ServiceInfo))
unfolding provider_of name_of describe change_service
service_descriptor t service_id desc s = do
  service_type ← index desc 0
  provider_name_length ← index desc 1
  provider ← provider_of t desc provider_name_length
  name ← name_of t desc (2 + provider_name_length)
  ok (change_service service_id (describe service_type name provider) s)

unfoldable pub parse_service_descriptors :
    Text → ℕ → List ℕ → ℕ → ℕ → List (ℕ × ServiceInfo) → Parse (List (ℕ × ServiceInfo))
unfolding service_descriptor
parse_service_descriptors t service_id bytes zero offset s = ok s
parse_service_descriptors t service_id bytes (suc n) offset s =
    if ltb (length bytes) (offset + 2) then ok s else (do
      tag ← index bytes offset
      len ← index bytes (offset + 1)
      if ltb (length bytes) (offset + 2 + len) then ok s else (do
        s' ←
            if tag == 0x48 && leb 3 len
            then (sub_slice bytes (offset + 2) (offset + 2 + len) >>= λ desc_data.
                service_descriptor t service_id desc_data s)
            else ok s
        parse_service_descriptors t service_id bytes n (offset + 2 + len) s'))

unfoldable pub services_at :
    Text → List ℕ → ℕ → ℕ → ℕ → List (ℕ × ServiceInfo) → Parse (List (ℕ × ServiceInfo))
unfolding parse_service_descriptors
services_at t bytes desc_start desc_end service_id s =
    if leb desc_end (length bytes)
    then (sub_slice bytes desc_start desc_end >>= λ descriptors.
        parse_service_descriptors t service_id descriptors (length descriptors) 0 s)
    else ok s

unfoldable pub parse_services :
    Text → List ℕ → ℕ → ℕ → ℕ → List (ℕ × ServiceInfo) → Parse (List (ℕ × ServiceInfo))
unfolding services_at word_of length_of
parse_services t bytes end zero offset s = ok s
parse_services t bytes end (suc n) offset s = if ltb end (offset + 5) then ok s else (do
  b₀ ← index bytes offset
  b₁ ← index bytes (offset + 1)
  b₃ ← index bytes (offset + 3)
  b₄ ← index bytes (offset + 4)
  if ltb end (offset + 5 + length_of b₃ b₄) then ok s else (do
    s' ← services_at t bytes (offset + 5) (offset + 5 + length_of b₃ b₄) (word_of b₀ b₁) s
    parse_services t bytes end n (offset + 5 + length_of b₃ b₄) s'))

unfoldable pub or_network : Option ℕ → ℕ → Option ℕ
or_network none id = some id
or_network (some old) id = some old

unfoldable pub parse_sdt : Text → List ℕ → ParseResult → Parse ParseResult
unfolding length_of word_of section_end parse_services or_network
parse_sdt t bytes r = if ltb (length bytes) 11 then ok r else (do
  table_id ← index bytes 0
  if not (table_id == 0x42) then ok r else (do
    b₈ ← index bytes 8
    b₉ ← index bytes 9
    b₁ ← index bytes 1
    b₂ ← index bytes 2
    end ← section_end (length_of b₁ b₂) (length bytes)
    services ← parse_services t bytes end (length bytes) 11 r.services
    ok (record r {
      network_id = or_network r.network_id (word_of b₈ b₉);
      has_sdt = true;
      services = services;
    })))
