-- ===== src/Ts/Minimal/Fuel.antt =====
-- The loops of the passive scanner's parser on fuel: as much as there are bytes is enough.
use recisdb_proxy_rs.Base.{
  ℕ, zero, suc, ◌+◌, ◌≤◌, ◌≡◌, refl, true, Option, List, length, drop, length-drop, ltb, ◌==◌,
  arith, Bool-cases, inl, inr,
}
use recisdb_proxy_rs.Ts.Access.{index, sub_slice}
use recisdb_proxy_rs.Ts.Psi.{length_of, word_of}
use recisdb_proxy_rs.Ts.Minimal.Tables.{
  Text, ServiceInfo, services_at, parse_service_descriptors, parse_services,
  parse_network_descriptors,
}
use recisdb_proxy_rs.Ts.Minimal.{MinimalTsParser, process_packet, feed_packets}
use recisdb_proxy_rs.Ts.Minimal.Aligned.{bind-same}

-- From the length of the bytes on, more fuel changes nothing.
feed_packets_fuel :
    (t : Text) (n m : ℕ) (bytes : List ℕ) (p : MinimalTsParser)
    → length bytes ≤ n
    → length bytes ≤ m
    → feed_packets t n bytes p ≡ feed_packets t m bytes p
unfolding feed_packets
feed_packets_fuel t zero zero bytes p h k = refl
feed_packets_fuel t zero (suc m) bytes p h k =
    let short : ltb (length bytes) 188 ≡ true = ground arith in rw short refl
feed_packets_fuel t (suc n) zero bytes p h k =
    let short : ltb (length bytes) 188 ≡ true = ground arith in rw short refl
feed_packets_fuel t (suc n) (suc m) bytes p h k = elim (Bool-cases (ltb (length bytes) 188)) [
  | inl x ↦ rw x refl
  | inr x ↦ rw x (
      bind-same (index bytes 0) _ _ λ b. elim (Bool-cases (b == 0x47)) [
        | inl y ↦ rw y (
            bind-same (sub_slice bytes 0 188) _ _ λ packet.
              bind-same (process_packet t packet p) _ _ λ p'.
                feed_packets_fuel t n m (drop 188 bytes) p' (ground (arith, length-drop 188 bytes))
                  (ground (arith, length-drop 188 bytes)))
        | inr y ↦ rw y (
            feed_packets_fuel t n m (drop 1 bytes) p (ground (arith, length-drop 1 bytes))
              (ground (arith, length-drop 1 bytes)))
      ])
]

parse_services_fuel :
    (t : Text) (bytes : List ℕ) (end n m offset : ℕ) (s : List (ℕ × ServiceInfo))
    → end ≤ n + offset
    → end ≤ m + offset
    → parse_services t bytes end n offset s ≡ parse_services t bytes end m offset s
unfolding parse_services
parse_services_fuel t bytes end zero zero offset s h k = refl
parse_services_fuel t bytes end zero (suc m) offset s h k =
    let short : ltb end (offset + 5) ≡ true = ground arith in rw short refl
parse_services_fuel t bytes end (suc n) zero offset s h k =
    let short : ltb end (offset + 5) ≡ true = ground arith in rw short refl
parse_services_fuel t bytes end (suc n) (suc m) offset s h k =
    elim (Bool-cases (ltb end (offset + 5))) [
      | inl x ↦ rw x refl
      | inr x ↦ rw x (
          bind-same (index bytes offset) _ _ λ b₀. bind-same (index bytes (offset + 1)) _ _ λ b₁.
            bind-same (index bytes (offset + 3)) _ _ λ b₃.
              bind-same (index bytes (offset + 4)) _ _ λ b₄.
                let next : ℕ = offset + 5 + length_of b₃ b₄ in
                elim (Bool-cases (ltb end next)) [
                  | inl y ↦ rw y refl
                  | inr y ↦ rw y (
                      bind-same (services_at t bytes (offset + 5) next (word_of b₀ b₁) s) _ _ λ s'.
                        parse_services_fuel t bytes end n m next s' (omega arith) (omega arith))
                ])
    ]

parse_service_descriptors_fuel :
    (t : Text) (id : ℕ) (bytes : List ℕ) (n m offset : ℕ) (s : List (ℕ × ServiceInfo))
    → length bytes ≤ n + offset
    → length bytes ≤ m + offset
    → parse_service_descriptors t id bytes n offset s
      ≡ parse_service_descriptors t id bytes m offset s
unfolding parse_service_descriptors
parse_service_descriptors_fuel t id bytes zero zero offset s h k = refl
parse_service_descriptors_fuel t id bytes zero (suc m) offset s h k =
    let short : ltb (length bytes) (offset + 2) ≡ true = ground arith in rw short refl
parse_service_descriptors_fuel t id bytes (suc n) zero offset s h k =
    let short : ltb (length bytes) (offset + 2) ≡ true = ground arith in rw short refl
parse_service_descriptors_fuel t id bytes (suc n) (suc m) offset s h k =
    elim (Bool-cases (ltb (length bytes) (offset + 2))) [
      | inl x ↦ rw x refl
      | inr x ↦ rw x (
          bind-same (index bytes offset) _ _ λ tag. bind-same (index bytes (offset + 1)) _ _ λ len.
            elim (Bool-cases (ltb (length bytes) (offset + 2 + len))) [
              | inl y ↦ rw y refl
              | inr y ↦ rw y (
                  bind-same _ _ _ λ s'.
                    parse_service_descriptors_fuel t id bytes n m (offset + 2 + len) s'
                      (omega arith) (omega arith))
            ])
    ]

parse_network_descriptors_fuel :
    (t : Text) (bytes : List ℕ) (n m offset : ℕ) (name : Option (List ℕ))
    → length bytes ≤ n + offset
    → length bytes ≤ m + offset
    → parse_network_descriptors t bytes n offset name
      ≡ parse_network_descriptors t bytes m offset name
unfolding parse_network_descriptors
parse_network_descriptors_fuel t bytes zero zero offset name h k = refl
parse_network_descriptors_fuel t bytes zero (suc m) offset name h k =
    let short : ltb (length bytes) (offset + 2) ≡ true = ground arith in rw short refl
parse_network_descriptors_fuel t bytes (suc n) zero offset name h k =
    let short : ltb (length bytes) (offset + 2) ≡ true = ground arith in rw short refl
parse_network_descriptors_fuel t bytes (suc n) (suc m) offset name h k =
    elim (Bool-cases (ltb (length bytes) (offset + 2))) [
      | inl x ↦ rw x refl
      | inr x ↦ rw x (
          bind-same (index bytes offset) _ _ λ tag. bind-same (index bytes (offset + 1)) _ _ λ len.
            elim (Bool-cases (ltb (length bytes) (offset + 2 + len))) [
              | inl y ↦ rw y refl
              | inr y ↦ rw y (
                  bind-same _ _ _ λ name'.
                    parse_network_descriptors_fuel t bytes n m (offset + 2 + len) name'
                      (omega arith) (omega arith))
            ])
    ]
