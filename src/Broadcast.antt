-- ===== src/Broadcast.antt =====
-- recisdb-protocol/src/broadcast_region.rs, and BandType of types.rs: what a network id says about
-- the region and the band of a channel. The workspace is built with overflow checks, so that an
-- arithmetic overflow panics; a call that may panic and returns no error is an Outcome without errors.
pub mod Names
mod Regions
mod Bounds
mod Bands
mod Tests
use recisdb_proxy_rs.Base.{
  ℕ, ◌+◌, ◌-◌, ◌/◌, ◌%◌, Bool, true, false, not, ◌&&◌, ◌||◌, Option, none, some, ltb, leb, ◌==◌,
  if◌then◌else◌, Outcome, ok, panicked, and_then,
}
use recisdb_proxy_rs.Protocol.Messages.{BroadcastType}
use recisdb_proxy_rs.Broadcast.Names.{Prefecture, get_prefecture_name_from_region_id}

abbrev pub Call : Type 0 → Type 0
Call A = Outcome ⊥ A

-- `x - y` of unsigned integers.
abbrev pub checked_sub : ℕ → ℕ → Call ℕ
checked_sub x y = if leb y x then ok (x - y) else panicked

-- The range test at the end of `get_region_id_from_nid`.
unfoldable pub valid_region : ℕ → Option ℕ
valid_region region_id = if leb 1 region_id && leb region_id 62 then some region_id else none

-- The network id without the flag.
unfoldable pub normalized_nid : ℕ → ℕ
normalized_nid nid = if ltb nid 0x7C00 then nid + 0x0400 else nid

unfoldable pub get_region_id_from_nid : ℕ → Call (Option ℕ)
unfolding valid_region normalized_nid
get_region_id_from_nid nid =
    if not (leb 0x7800 nid && leb nid 0x7FF0)
    then ok none
    else and_then (checked_sub 0x7FF0 (normalized_nid nid))
        λ d. ok (valid_region ((d + 0x000F) / 0x0010 % 256))

pub data TerrestrialRegion : Type 0 where
  hokkaido tohoku kanto koshinetsu hokuriku tokai kinki chugoku shikoku kyushu okinawa :
      TerrestrialRegion
  -- With the raw value.
  unknown : ℕ → TerrestrialRegion

-- `first..=last`.
abbrev pub is_between : ℕ → ℕ → ℕ → Bool
is_between first last n = leb first n && leb n last

unfoldable pub get_terrestrial_region_from_id : ℕ → TerrestrialRegion
get_terrestrial_region_from_id region_id =
    if region_id == 4 || is_between 10 16 region_id
    then hokkaido
    else if is_between 17 22 region_id
    then tohoku
    else if region_id == 1 || is_between 23 29 region_id
    then kanto
    else if is_between 30 32 region_id
    then koshinetsu
    else if region_id == 34 || region_id == 36 || region_id == 37
    then hokuriku
    else if region_id == 3
        || region_id == 33
        || region_id == 35
        || region_id == 38
        || region_id == 39
    then tokai
    else if region_id == 2 || is_between 40 45 region_id
    then kinki
    else if region_id == 5 || region_id == 6 || is_between 46 50 region_id
    then chugoku
    else if is_between 51 54 region_id
    then shikoku
    else if is_between 55 61 region_id
    then kyushu
    else if region_id == 62
    then okinawa
    else unknown region_id

-- The two results of `classify_terrestrial_nid`.
unfoldable pub terrestrial_region : ℕ → Option ℕ → TerrestrialRegion
unfolding get_terrestrial_region_from_id
terrestrial_region nid none = unknown nid
terrestrial_region nid (some region_id) = get_terrestrial_region_from_id region_id

unfoldable pub classify_terrestrial_nid : ℕ → Call (BroadcastType × Option TerrestrialRegion)
unfolding get_region_id_from_nid terrestrial_region
classify_terrestrial_nid nid =
    and_then (get_region_id_from_nid nid)
      λ region_id. ok (BroadcastType.terrestrial, some (terrestrial_region nid region_id))

unfoldable pub classify_nid : ℕ → Call (BroadcastType × Option TerrestrialRegion)
unfolding classify_terrestrial_nid
classify_nid nid =
    let terrestrial = classify_terrestrial_nid nid in
    if nid == 4
    then ok (BroadcastType.bs, none)
    else if nid == 6 || nid == 7 || nid == 10
    then ok (BroadcastType.cs, none)
    else terrestrial

unfoldable pub get_prefecture_name : ℕ → Call (Option Prefecture)
unfolding get_region_id_from_nid get_prefecture_name_from_region_id
get_prefecture_name nid =
    and_then (get_region_id_from_nid nid) λ region_id.
      ok (elim region_id [ none ↦ none | some r ↦ get_prefecture_name_from_region_id r ])

pub data BandType : Type 0 where
  terrestrial bs cs four_k other catv sky : BandType

unfoldable pub from_nid : ℕ → BandType
from_nid nid =
    if nid == 0x0004
    then bs
    else if nid == 0x0006 || nid == 0x0007
    then cs
    else if nid == 0x000B || nid == 0x000C
    then four_k
    else if nid == 0x000A || nid == 0x0001 || nid == 0x0003
    then sky
    else if nid == 0xFFFE || nid == 0xFFFA || nid == 0xFFFD || nid == 0xFFF9 || nid == 0xFFF7
    then catv
    else if is_between 0x7800 0x7FFF nid
    then BandType.terrestrial
    else other
