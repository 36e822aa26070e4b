-- ===== src/Broadcast/Bands.antt =====
-- The classifications of a network id: its region, its broadcast type and its band.
use recisdb_proxy_rs.Base.{ℕ, ◌≤◌, ◌≡◌, refl, some, arith, ok}
use recisdb_proxy_rs.Protocol.Messages.{BroadcastType}
use recisdb_proxy_rs.Broadcast.{
  get_region_id_from_nid, terrestrial_region, get_terrestrial_region_from_id,
  classify_terrestrial_nid, classify_nid, BandType, from_nid,
}

classified :
    (nid r : ℕ)
    → get_region_id_from_nid nid ≡ ok (some r)
    → classify_terrestrial_nid nid
      ≡ ok (BroadcastType.terrestrial, some (get_terrestrial_region_from_id r))
unfolding classify_terrestrial_nid terrestrial_region
classified nid r e = rw e refl

-- A network id that has a region is classified as terrestrial with this region, and its band is the
-- terrestrial one.
pub classify_nid-terrestrial :
    (nid r : ℕ)
    → get_region_id_from_nid nid ≡ ok (some r)
    → (classify_nid nid ≡ ok (BroadcastType.terrestrial, some (get_terrestrial_region_from_id r)))
      × (from_nid nid ≡ BandType.terrestrial)
unfolding classify_nid from_nid get_region_id_from_nid
classify_nid-terrestrial nid r e =
    let range : 0x7800 ≤ nid = ground arith in
    (rw (classified nid r e) (ground arith), ground arith)
