-- ===== src/Broadcast/Names.antt =====
-- recisdb-protocol/src/broadcast_region.rs: the prefectures of the regions. A prefecture's name in
-- Japanese is a constructor, and the `match` on the region a table.
use recisdb_proxy_rs.Base.{ℕ, Option, none, some, List, [], ◌∷◌, ◌==◌, if◌then◌else◌}

pub data Prefecture : Type 0 where
  tokyo osaka aichi hokkaido okayama shimane miyagi akita yamagata iwate fukushima aomori kanagawa
        gunma ibaraki chiba tochigi saitama nagano niigata yamanashi ishikawa shizuoka fukui toyama
        mie gifu kyoto hyogo wakayama nara shiga hiroshima tottori yamaguchi ehime kagawa tokushima
        kochi fukuoka kumamoto nagasaki kagoshima miyazaki oita saga okinawa :
      Prefecture

abbrev names : List (ℕ × Prefecture)
names =
    (1, tokyo)
    ∷ (2, osaka)
    ∷ (3, aichi)
    ∷ (4, hokkaido)
    ∷ (5, okayama)
    ∷ (6, shimane)
    ∷ (10, hokkaido)
    ∷ (11, hokkaido)
    ∷ (12, hokkaido)
    ∷ (13, hokkaido)
    ∷ (14, hokkaido)
    ∷ (15, hokkaido)
    ∷ (16, hokkaido)
    ∷ (17, miyagi)
    ∷ (18, akita)
    ∷ (19, yamagata)
    ∷ (20, iwate)
    ∷ (21, fukushima)
    ∷ (22, aomori)
    ∷ (23, tokyo)
    ∷ (24, kanagawa)
    ∷ (25, gunma)
    ∷ (26, ibaraki)
    ∷ (27, chiba)
    ∷ (28, tochigi)
    ∷ (29, saitama)
    ∷ (30, nagano)
    ∷ (31, niigata)
    ∷ (32, yamanashi)
    ∷ (33, aichi)
    ∷ (34, ishikawa)
    ∷ (35, shizuoka)
    ∷ (36, fukui)
    ∷ (37, toyama)
    ∷ (38, mie)
    ∷ (39, gifu)
    ∷ (40, osaka)
    ∷ (41, kyoto)
    ∷ (42, hyogo)
    ∷ (43, wakayama)
    ∷ (44, nara)
    ∷ (45, shiga)
    ∷ (46, hiroshima)
    ∷ (47, okayama)
    ∷ (48, shimane)
    ∷ (49, tottori)
    ∷ (50, yamaguchi)
    ∷ (51, ehime)
    ∷ (52, kagawa)
    ∷ (53, tokushima)
    ∷ (54, kochi)
    ∷ (55, fukuoka)
    ∷ (56, kumamoto)
    ∷ (57, nagasaki)
    ∷ (58, kagoshima)
    ∷ (59, miyazaki)
    ∷ (60, oita)
    ∷ (61, saga)
    ∷ (62, okinawa)
    ∷ []

unfoldable pub find_name : ℕ → List (ℕ × Prefecture) → Option Prefecture
find_name region_id [] = none
find_name region_id (row ∷ rows) =
    let later = find_name region_id rows in if region_id == row.0 then some row.1 else later

unfoldable pub get_prefecture_name_from_region_id : ℕ → Option Prefecture
unfolding find_name
get_prefecture_name_from_region_id region_id = find_name region_id names
