-- ===== src/Ts/Minimal/Tables/PanicFree.antt =====
-- The tables of the passive scanner on any bytes: no index, slice or subtraction is out of bounds.
use recisdb_proxy_rs.Base.{
  ℕ, zero, suc, ◌+◌, ◌<◌, ◌≤◌, ◌≡◌, ◌≢◌, refl, ◌-◌, min, true, not, ◌&&◌, ◌||◌, Option, List, [],
  ◌∷◌, length, take, drop, length-take, length-drop, if◌then◌else◌, ltb, leb, ◌==◌, le_of_ltb,
  arith, ok, panicked,
}
use recisdb_proxy_rs.Ts.Access.{Parse, ◌>>=◌, index, sub_slice}
use recisdb_proxy_rs.Ts.PanicFree.{
  bind-ne-panicked, index-then, if-ne-panicked, ok-ne-panicked, sub_slice-ne-panicked,
}
use recisdb_proxy_rs.Ts.Psi.{length_of}
use recisdb_proxy_rs.Ts.Minimal.Tables.{
  Text, ParseResult, ServiceInfo, section_end, add_services, parse_pat, escape_end, text_start,
  decode_arib_string, network_descriptor, parse_network_descriptors, services_at, network_name_of,
  parse_nit, provider_of, name_at, name_of, service_descriptor, parse_service_descriptors,
  parse_services, parse_sdt,
}

-- A section as it is taken from a buffer: as long as its length field says.
abbrev pub IsSection : List ℕ → Type 0
IsSection bytes =
    (b₁ b₂ : ℕ) → index bytes 1 ≡ ok b₁ → index bytes 2 ≡ ok b₂ → length bytes ≡ 3 + length_of b₁ b₂

-- Indexing, with what was read.
pub index-known :
    {B : Type 0} (bytes : List ℕ) (i : ℕ) (f : ℕ → Parse B)
    → i < length bytes
    → ((a : ℕ) → index bytes i ≡ ok a → f a ≢ panicked)
    → (index bytes i >>= f) ≢ panicked
index-known [] i f h k = absurd (omega arith)
index-known (b ∷ bytes) zero f h k = k b refl
index-known (b ∷ bytes) (suc i) f h k = index-known bytes i f (omega arith) k

-- Slicing, with the length of what was read.
sub_slice-then :
    {B : Type 0} (bytes : List ℕ) (from to : ℕ) (f : List ℕ → Parse B)
    → from ≤ to
    → to ≤ length bytes
    → ((part : List ℕ) → length part ≡ to - from → f part ≢ panicked)
    → (sub_slice bytes from to >>= f) ≢ panicked
sub_slice-then bytes from to f h k g =
    let t : (leb from to && leb to (length bytes)) ≡ true = ground arith in
    rw t (
      g (take (to - from) (drop from bytes))
        (omega (arith, length-take (to - from) (drop from bytes), length-drop from bytes)))

section_end-then :
    {B : Type 0} (n len : ℕ) (f : ℕ → Parse B)
    → 1 ≤ n
    → ((end : ℕ) → end ≤ len → f end ≢ panicked)
    → (section_end n len >>= f) ≢ panicked
unfolding section_end
section_end-then n len f h k =
    let enough : leb 4 (3 + n) ≡ true = ground arith in
    rw enough (k (min (3 + n - 4) len) (omega arith))

add_services-ne-panicked :
    (bytes : List ℕ) (end n offset : ℕ) (s : List (ℕ × ServiceInfo))
    → end ≤ length bytes
    → add_services bytes end n offset s ≢ panicked
unfolding add_services
add_services-ne-panicked bytes end zero offset s h = ok-ne-panicked _
add_services-ne-panicked bytes end (suc n) offset s h =
    if-ne-panicked (ltb end (offset + 4)) _ _ (λ x. ok-ne-panicked _)
      λ x.
        let inside = le_of_ltb end (offset + 4) x in
        index-then bytes offset _ (omega arith) λ b₀.
          index-then bytes (offset + 1) _ (omega arith)
            λ b₁. add_services-ne-panicked bytes end n (offset + 4) _ h

pub parse_pat-ne-panicked :
    (bytes : List ℕ) (r : ParseResult) → IsSection bytes → parse_pat bytes r ≢ panicked
unfolding parse_pat
parse_pat-ne-panicked bytes r s =
    if-ne-panicked (ltb (length bytes) 8) _ _ (λ t. ok-ne-panicked _)
      λ t.
        let h = le_of_ltb (length bytes) 8 t in
        index-then bytes 0 _ (omega arith) λ b₀.
          if-ne-panicked (not (b₀ == 0x00)) _ _ (λ t'. ok-ne-panicked _)
            λ t'. index-known bytes 1 _ (omega arith) λ b₁ e₁.
              index-known bytes 2 _ (omega arith) λ b₂ e₂. index-then bytes 3 _ (omega arith) λ b₃.
                index-then bytes 4 _ (omega arith) λ b₄.
                  section_end-then (length_of b₁ b₂) (length bytes) _ (omega (arith, s b₁ b₂ e₁ e₂))
                    λ end inside.
                      bind-ne-panicked _ _
                        (add_services-ne-panicked bytes end (length bytes) 8 r.services inside)
                        λ services. ok-ne-panicked _

escape_end-ne-panicked : (n : ℕ) (bytes : List ℕ) (i : ℕ) → escape_end n bytes i ≢ panicked
unfolding escape_end
escape_end-ne-panicked zero bytes i = ok-ne-panicked _
escape_end-ne-panicked (suc n) bytes i =
    if-ne-panicked (leb (length bytes) i) _ _ (λ x. ok-ne-panicked _)
      λ x. index-then bytes i _ (ground arith) λ b.
        if-ne-panicked (b == 0x1B || leb 4 i) _ _ (λ y. ok-ne-panicked _)
          λ y. escape_end-ne-panicked n bytes (i + 1)

decode_arib_string-ne-panicked : (t : Text) (bytes : List ℕ) → decode_arib_string t bytes ≢ panicked
unfolding decode_arib_string text_start
decode_arib_string-ne-panicked t bytes =
    if-ne-panicked (length bytes == 0) _ _ (λ x. ok-ne-panicked _)
      λ x.
        bind-ne-panicked (text_start bytes) _
          (index-then bytes 0 _ (ground arith) λ b₀.
            if-ne-panicked (b₀ == 0x1B) _ _ (λ y. escape_end-ne-panicked 4 bytes 1)
              λ y. ok-ne-panicked _)
          λ start.
            if-ne-panicked (leb (length bytes) start) _ _ (λ y. ok-ne-panicked _)
              λ y.
                bind-ne-panicked _ _
                  (sub_slice-ne-panicked bytes start (length bytes) (ground arith) (omega arith))
                  λ text_data. ok-ne-panicked _

network_descriptor-ne-panicked :
    (t : Text) (tag len : ℕ) (bytes : List ℕ) (offset : ℕ) (old : Option (List ℕ))
    → offset + 2 + len ≤ length bytes
    → network_descriptor t tag len bytes offset old ≢ panicked
unfolding network_descriptor
network_descriptor-ne-panicked t tag len bytes offset old h =
    if-ne-panicked (tag == 0x40 && ltb 0 len) _ _
      (λ x.
        bind-ne-panicked _ _
          (sub_slice-ne-panicked bytes (offset + 2) (offset + 2 + len) (omega arith) h)
          λ name_data.
            bind-ne-panicked _ _ (decode_arib_string-ne-panicked t name_data)
              λ name. ok-ne-panicked _)
      (λ x. ok-ne-panicked _)

parse_network_descriptors-ne-panicked :
    (t : Text) (bytes : List ℕ) (n offset : ℕ) (name : Option (List ℕ))
    → parse_network_descriptors t bytes n offset name ≢ panicked
unfolding parse_network_descriptors
parse_network_descriptors-ne-panicked t bytes zero offset name = ok-ne-panicked _
parse_network_descriptors-ne-panicked t bytes (suc n) offset name =
    if-ne-panicked (ltb (length bytes) (offset + 2)) _ _ (λ x. ok-ne-panicked _)
      λ x.
        let inside = le_of_ltb (length bytes) (offset + 2) x in
        index-then bytes offset _ (omega arith) λ tag.
          index-then bytes (offset + 1) _ (omega arith) λ len.
            if-ne-panicked (ltb (length bytes) (offset + 2 + len)) _ _ (λ y. ok-ne-panicked _)
              λ y.
                bind-ne-panicked _ _
                  (network_descriptor-ne-panicked t tag len bytes offset name
                    (le_of_ltb (length bytes) (offset + 2 + len) y))
                  λ name'. parse_network_descriptors-ne-panicked t bytes n (offset + 2 + len) name'

network_name_of-ne-panicked :
    (t : Text) (bytes : List ℕ) (desc_end : ℕ) (name : Option (List ℕ))
    → desc_end ≤ length bytes
    → network_name_of t bytes desc_end name ≢ panicked
unfolding network_name_of
network_name_of-ne-panicked t bytes desc_end name h =
    if-ne-panicked (ltb 10 desc_end) _ _
      (λ x.
        bind-ne-panicked _ _ (sub_slice-ne-panicked bytes 10 desc_end (ground arith) h)
          λ descriptors.
            parse_network_descriptors-ne-panicked t descriptors (length descriptors) 0 name)
      (λ x. ok-ne-panicked _)

pub parse_nit-ne-panicked :
    (t : Text) (bytes : List ℕ) (r : ParseResult) → parse_nit t bytes r ≢ panicked
unfolding parse_nit
parse_nit-ne-panicked t bytes r =
    if-ne-panicked (ltb (length bytes) 10) _ _ (λ x. ok-ne-panicked _)
      λ x.
        let h = le_of_ltb (length bytes) 10 x in
        index-then bytes 0 _ (omega arith) λ b₀.
          if-ne-panicked (not (b₀ == 0x40)) _ _ (λ y. ok-ne-panicked _)
            λ y. index-then bytes 3 _ (omega arith) λ b₃. index-then bytes 4 _ (omega arith) λ b₄.
              index-then bytes 8 _ (omega arith) λ b₈. index-then bytes 9 _ (omega arith) λ b₉.
                bind-ne-panicked _ _
                  (network_name_of-ne-panicked t bytes (min (10 + length_of b₈ b₉) (length bytes))
                    r.network_name (omega arith))
                  λ name. ok-ne-panicked _

provider_of-ne-panicked : (t : Text) (desc : List ℕ) (n : ℕ) → provider_of t desc n ≢ panicked
unfolding provider_of
provider_of-ne-panicked t desc n =
    if-ne-panicked (ltb 0 n && leb (2 + n) (length desc)) _ _
      (λ x.
        bind-ne-panicked _ _ (sub_slice-ne-panicked desc 2 (2 + n) (omega arith) (ground arith))
          λ bytes. decode_arib_string-ne-panicked t bytes)
      (λ x. ok-ne-panicked _)

name_at-ne-panicked : (t : Text) (desc : List ℕ) (offset n : ℕ) → name_at t desc offset n ≢ panicked
unfolding name_at
name_at-ne-panicked t desc offset n =
    if-ne-panicked (leb (offset + n) (length desc)) _ _
      (λ x.
        bind-ne-panicked _ _
          (sub_slice-ne-panicked desc offset (offset + n) (omega arith) (ground arith))
          λ bytes. decode_arib_string-ne-panicked t bytes)
      (λ x. ok-ne-panicked _)

name_of-ne-panicked : (t : Text) (desc : List ℕ) (offset : ℕ) → name_of t desc offset ≢ panicked
unfolding name_of
name_of-ne-panicked t desc offset =
    if-ne-panicked (leb (offset + 1) (length desc)) _ _
      (λ x. index-then desc offset _ (ground arith) λ n. name_at-ne-panicked t desc (offset + 1) n)
      (λ x. ok-ne-panicked _)

service_descriptor-ne-panicked :
    (t : Text) (id : ℕ) (desc : List ℕ) (s : List (ℕ × ServiceInfo))
    → 3 ≤ length desc
    → service_descriptor t id desc s ≢ panicked
unfolding service_descriptor
service_descriptor-ne-panicked t id desc s h = index-then desc 0 _ (omega arith) λ service_type.
    index-then desc 1 _ (omega arith) λ n.
      bind-ne-panicked _ _ (provider_of-ne-panicked t desc n) λ provider.
        bind-ne-panicked _ _ (name_of-ne-panicked t desc (2 + n)) λ name. ok-ne-panicked _

service_at-ne-panicked :
    (t : Text) (id tag len : ℕ) (bytes : List ℕ) (offset : ℕ) (s : List (ℕ × ServiceInfo))
    → offset + 2 + len ≤ length bytes
    → (if tag == 0x48 && leb 3 len
        then (sub_slice bytes (offset + 2) (offset + 2 + len) >>= λ desc_data.
            service_descriptor t id desc_data s)
        else ok s)
      ≢ panicked
service_at-ne-panicked t id tag len bytes offset s h =
    if-ne-panicked (tag == 0x48 && leb 3 len) _ _
      (λ y.
        sub_slice-then bytes (offset + 2) (offset + 2 + len) _ (omega arith) h
          λ desc_data k. service_descriptor-ne-panicked t id desc_data s (ground (arith, k)))
      (λ y. ok-ne-panicked _)

parse_service_descriptors-ne-panicked :
    (t : Text) (id : ℕ) (bytes : List ℕ) (n offset : ℕ) (s : List (ℕ × ServiceInfo))
    → parse_service_descriptors t id bytes n offset s ≢ panicked
unfolding parse_service_descriptors
parse_service_descriptors-ne-panicked t id bytes zero offset s = ok-ne-panicked _
parse_service_descriptors-ne-panicked t id bytes (suc n) offset s =
    if-ne-panicked (ltb (length bytes) (offset + 2)) _ _ (λ x. ok-ne-panicked _)
      λ x.
        let inside = le_of_ltb (length bytes) (offset + 2) x in
        index-then bytes offset _ (omega arith) λ tag.
          index-then bytes (offset + 1) _ (omega arith) λ len.
            if-ne-panicked (ltb (length bytes) (offset + 2 + len)) _ _ (λ y. ok-ne-panicked _)
              λ y.
                bind-ne-panicked _ _
                  (service_at-ne-panicked t id tag len bytes offset s
                    (le_of_ltb (length bytes) (offset + 2 + len) y))
                  λ s'. parse_service_descriptors-ne-panicked t id bytes n (offset + 2 + len) s'

services_at-ne-panicked :
    (t : Text) (bytes : List ℕ) (start end id : ℕ) (s : List (ℕ × ServiceInfo))
    → start ≤ end
    → services_at t bytes start end id s ≢ panicked
unfolding services_at
services_at-ne-panicked t bytes start end id s h =
    if-ne-panicked (leb end (length bytes)) _ _
      (λ x.
        bind-ne-panicked _ _ (sub_slice-ne-panicked bytes start end h (ground arith)) λ descriptors.
          parse_service_descriptors-ne-panicked t id descriptors (length descriptors) 0 s)
      (λ x. ok-ne-panicked _)

parse_services-ne-panicked :
    (t : Text) (bytes : List ℕ) (end n offset : ℕ) (s : List (ℕ × ServiceInfo))
    → end ≤ length bytes
    → parse_services t bytes end n offset s ≢ panicked
unfolding parse_services
parse_services-ne-panicked t bytes end zero offset s h = ok-ne-panicked _
parse_services-ne-panicked t bytes end (suc n) offset s h =
    if-ne-panicked (ltb end (offset + 5)) _ _ (λ x. ok-ne-panicked _)
      λ x.
        let inside = le_of_ltb end (offset + 5) x in
        index-then bytes offset _ (omega arith) λ b₀.
          index-then bytes (offset + 1) _ (omega arith) λ b₁.
            index-then bytes (offset + 3) _ (omega arith) λ b₃.
              index-then bytes (offset + 4) _ (omega arith) λ b₄.
                if-ne-panicked (ltb end (offset + 5 + length_of b₃ b₄)) _ _ (λ y. ok-ne-panicked _)
                  λ y.
                    bind-ne-panicked _ _
                      (services_at-ne-panicked t bytes (offset + 5) (offset + 5 + length_of b₃ b₄) _
                        s (omega arith))
                      λ s'.
                        parse_services-ne-panicked t bytes end n (offset + 5 + length_of b₃ b₄) s' h

pub parse_sdt-ne-panicked :
    (t : Text) (bytes : List ℕ) (r : ParseResult) → IsSection bytes → parse_sdt t bytes r ≢ panicked
unfolding parse_sdt
parse_sdt-ne-panicked t bytes r s =
    if-ne-panicked (ltb (length bytes) 11) _ _ (λ x. ok-ne-panicked _)
      λ x.
        let h = le_of_ltb (length bytes) 11 x in
        index-then bytes 0 _ (omega arith) λ b₀.
          if-ne-panicked (not (b₀ == 0x42)) _ _ (λ y. ok-ne-panicked _)
            λ y. index-then bytes 8 _ (omega arith) λ b₈. index-then bytes 9 _ (omega arith) λ b₉.
              index-known bytes 1 _ (omega arith) λ b₁ e₁.
                index-known bytes 2 _ (omega arith) λ b₂ e₂.
                  section_end-then (length_of b₁ b₂) (length bytes) _ (omega (arith, s b₁ b₂ e₁ e₂))
                    λ end inside.
                      bind-ne-panicked _ _
                        (parse_services-ne-panicked t bytes end (length bytes) 11 r.services inside)
                        λ services. ok-ne-panicked _
