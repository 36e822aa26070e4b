-- ===== src/Broadcast/Bounds.antt =====
-- The region of a network id against the formula of the standard.
use recisdb_proxy_rs.Base.{
  ℕ, ◌+◌, ◌-◌, ◌*◌, ◌≤◌, ◌≡◌, ◌↔◌, some, ltb, if◌then◌else◌, arith, ok, panicked,
}
use recisdb_proxy_rs.Broadcast.{valid_region, normalized_nid, get_region_id_from_nid}

-- `0x7FF0 - 0x0010 × region + broadcaster - 0x0400 × flag`.
abbrev pub network_id : ℕ → ℕ → ℕ → ℕ
network_id region broadcaster flag = 0x7FF0 - 0x0010 * region + broadcaster - 0x0400 * flag

-- The region is read back from every network id of the formula: regions 1 to 62, broadcasters up to 15,
-- with and without the flag.
pub get_region_id_from_nid-network_id :
    (r b f : ℕ)
    → 1 ≤ r
    → r ≤ 62
    → b ≤ 15
    → f ≤ 1
    → get_region_id_from_nid (network_id r b f) ≡ ok (some r)
unfolding get_region_id_from_nid normalized_nid valid_region
get_region_id_from_nid-network_id r b f h k l m = ground arith

abbrev flag : ℕ → ℕ
flag nid = if ltb nid 0x7C00 then 1 else 0

-- A region is given only to a network id of the formula.
pub network_id-get_region_id_from_nid :
    (nid r : ℕ)
    → get_region_id_from_nid nid ≡ ok (some r)
    → (1 ≤ r) × (r ≤ 62) × ((b : ℕ) × (f : ℕ) × (b ≤ 15) × (f ≤ 1) × (nid ≡ network_id r b f))
unfolding get_region_id_from_nid normalized_nid valid_region
network_id-get_region_id_from_nid nid r e = (
  ground arith,
  ground arith,
  (0x0010 * r + normalized_nid nid - 0x7FF0, flag nid, ground arith, ground arith, ground arith),
)

-- Of the network ids, the fifteen from 0x7BF1 to 0x7BFF make the subtraction overflow, and no others.
pub get_region_id_from_nid-panics :
    (nid : ℕ) → (get_region_id_from_nid nid ≡ panicked) ↔ ((0x7BF1 ≤ nid) × (nid ≤ 0x7BFF))
unfolding get_region_id_from_nid normalized_nid valid_region
get_region_id_from_nid-panics nid = ground arith
