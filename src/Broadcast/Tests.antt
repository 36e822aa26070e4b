-- ===== src/Broadcast/Tests.antt =====
-- The theorems at concrete network ids, and tests of the source.
use recisdb_proxy_rs.Base.{ℕ, ◌≤◌, ◌↔◌, ◌≡◌, refl, some, arith, ok, panicked}
use recisdb_proxy_rs.Protocol.Messages.{BroadcastType}
use recisdb_proxy_rs.Broadcast.{
  get_region_id_from_nid, get_terrestrial_region_from_id, classify_nid, BandType, from_nid, kanto,
  four_k, unknown, get_prefecture_name,
}
use recisdb_proxy_rs.Broadcast.Names.{miyagi, get_prefecture_name_from_region_id}
use recisdb_proxy_rs.Broadcast.Regions.{region_of_name, get_terrestrial_region_from_id-region_of}
use recisdb_proxy_rs.Broadcast.Bounds.{
  network_id, get_region_id_from_nid-network_id, network_id-get_region_id_from_nid,
  get_region_id_from_nid-panics,
}
use recisdb_proxy_rs.Broadcast.Bands.{classify_nid-terrestrial}

-- Miyagi, region 17, with the flag and the sixth broadcaster.
get_region_id_from_nid-network_id_example :
    get_region_id_from_nid (network_id 17 5 1) ≡ ok (some 17)
get_region_id_from_nid-network_id_example =
    get_region_id_from_nid-network_id 17 5 1 (omega arith) (omega arith) (omega arith) (omega arith)

at_7ee5 : get_region_id_from_nid 0x7EE5 ≡ ok (some 17)
unfolding get_region_id_from_nid
at_7ee5 = refl

network_id-get_region_id_from_nid_example :
    (1 ≤ 17) × (17 ≤ 62) × ((b : ℕ) × (f : ℕ) × (b ≤ 15) × (f ≤ 1) × (0x7EE5 ≡ network_id 17 b f))
network_id-get_region_id_from_nid_example = network_id-get_region_id_from_nid 0x7EE5 17 at_7ee5

get_region_id_from_nid-panics_example :
    (get_region_id_from_nid 0x7BF5 ≡ panicked) ↔ ((0x7BF1 ≤ 0x7BF5) × (0x7BF5 ≤ 0x7BFF))
get_region_id_from_nid-panics_example = get_region_id_from_nid-panics 0x7BF5

get_terrestrial_region_from_id-region_of_example :
    get_terrestrial_region_from_id 17 ≡ region_of_name 17 (get_prefecture_name_from_region_id 17)
get_terrestrial_region_from_id-region_of_example =
    get_terrestrial_region_from_id-region_of 17 (omega arith)

classify_nid-terrestrial_example :
    (classify_nid 0x7EE5 ≡ ok (BroadcastType.terrestrial, some (get_terrestrial_region_from_id 17)))
    × (from_nid 0x7EE5 ≡ BandType.terrestrial)
classify_nid-terrestrial_example = classify_nid-terrestrial 0x7EE5 17 at_7ee5

-- From the source's tests, and two bands that `classify_nid` takes to be something else.
kanto_wide : classify_nid 0x7FE0 ≡ ok (BroadcastType.terrestrial, some kanto)
unfolding classify_nid
kanto_wide = refl

bs_4k : from_nid 0x000B ≡ four_k
unfolding from_nid
bs_4k = refl

bs_4k_classified : classify_nid 0x000B ≡ ok (BroadcastType.terrestrial, some (unknown 0x000B))
unfolding classify_nid
bs_4k_classified = refl

miyagi_name : get_prefecture_name 0x7EE0 ≡ ok (some miyagi)
unfolding get_prefecture_name
miyagi_name = refl
