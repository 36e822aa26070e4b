-- ===== src/Broadcast/Regions.antt =====
-- The two tables of broadcast_region.rs agree: the region of a region id is the one that its prefecture
-- lies in.
use recisdb_proxy_rs.Base.{
  ℕ, suc, ◌-◌, ◌<◌, ◌≡◌, refl, sym, ap, ◌∙◌, true, Option, none, some, List, [], ◌∷◌, get_elem?,
  arith, ◌==◌,
}
use recisdb_proxy_rs.Base.Bits.{all_below, below_table}
use recisdb_proxy_rs.Broadcast.Names.{Prefecture, get_prefecture_name_from_region_id}
use recisdb_proxy_rs.Broadcast.{
  TerrestrialRegion, get_terrestrial_region_from_id, unknown, hokkaido, tohoku, kanto, koshinetsu,
  hokuriku, tokai, kinki, chugoku, shikoku, kyushu, okinawa,
}

-- Where a prefecture lies.
abbrev pub region_of : Prefecture → TerrestrialRegion
region_of Prefecture.tokyo = kanto
region_of Prefecture.osaka = kinki
region_of Prefecture.aichi = tokai
region_of Prefecture.hokkaido = hokkaido
region_of Prefecture.okayama = chugoku
region_of Prefecture.shimane = chugoku
region_of Prefecture.miyagi = tohoku
region_of Prefecture.akita = tohoku
region_of Prefecture.yamagata = tohoku
region_of Prefecture.iwate = tohoku
region_of Prefecture.fukushima = tohoku
region_of Prefecture.aomori = tohoku
region_of Prefecture.kanagawa = kanto
region_of Prefecture.gunma = kanto
region_of Prefecture.ibaraki = kanto
region_of Prefecture.chiba = kanto
region_of Prefecture.tochigi = kanto
region_of Prefecture.saitama = kanto
region_of Prefecture.nagano = koshinetsu
region_of Prefecture.niigata = koshinetsu
region_of Prefecture.yamanashi = koshinetsu
region_of Prefecture.ishikawa = hokuriku
region_of Prefecture.shizuoka = tokai
region_of Prefecture.fukui = hokuriku
region_of Prefecture.toyama = hokuriku
region_of Prefecture.mie = tokai
region_of Prefecture.gifu = tokai
region_of Prefecture.kyoto = kinki
region_of Prefecture.hyogo = kinki
region_of Prefecture.wakayama = kinki
region_of Prefecture.nara = kinki
region_of Prefecture.shiga = kinki
region_of Prefecture.hiroshima = chugoku
region_of Prefecture.tottori = chugoku
region_of Prefecture.yamaguchi = chugoku
region_of Prefecture.ehime = shikoku
region_of Prefecture.kagawa = shikoku
region_of Prefecture.tokushima = shikoku
region_of Prefecture.kochi = shikoku
region_of Prefecture.fukuoka = kyushu
region_of Prefecture.kumamoto = kyushu
region_of Prefecture.nagasaki = kyushu
region_of Prefecture.kagoshima = kyushu
region_of Prefecture.miyazaki = kyushu
region_of Prefecture.oita = kyushu
region_of Prefecture.saga = kyushu
region_of Prefecture.okinawa = okinawa

-- A region without a prefecture is unknown.
abbrev pub region_of_name : ℕ → Option Prefecture → TerrestrialRegion
region_of_name region_id none = unknown region_id
region_of_name region_id (some p) = region_of p

abbrev regions : List TerrestrialRegion
regions =
    hokkaido ∷ tohoku ∷ kanto ∷ koshinetsu ∷ hokuriku ∷ tokai ∷ kinki ∷ chugoku ∷ shikoku ∷ kyushu
    ∷ okinawa ∷ []

abbrev code : TerrestrialRegion → ℕ
code hokkaido = 0
code tohoku = 1
code kanto = 2
code koshinetsu = 3
code hokuriku = 4
code tokai = 5
code kinki = 6
code chugoku = 7
code shikoku = 8
code kyushu = 9
code okinawa = 10
code (unknown n) = suc (suc (suc (suc (suc (suc (suc (suc (suc (suc (suc n))))))))))

abbrev decode : ℕ → TerrestrialRegion
decode k = elim (get_elem? regions k) [ none ↦ unknown (k - 11) | some r ↦ r ]

decode-code : (r : TerrestrialRegion) → decode (code r) ≡ r
decode-code hokkaido = refl
decode-code tohoku = refl
decode-code kanto = refl
decode-code koshinetsu = refl
decode-code hokuriku = refl
decode-code tokai = refl
decode-code kinki = refl
decode-code chugoku = refl
decode-code shikoku = refl
decode-code kyushu = refl
decode-code okinawa = refl
decode-code (unknown n) = ap (λ m. unknown m) (omega arith)

region_table :
    all_below 256 (λ i.
      code (get_terrestrial_region_from_id i)
      == code (region_of_name i (get_prefecture_name_from_region_id i)))
    ≡ true
unfolding get_terrestrial_region_from_id get_prefecture_name_from_region_id
region_table = refl

-- Each region id of a byte is classified as the region in which its prefecture lies, and as unknown when
-- it has none.
pub get_terrestrial_region_from_id-region_of :
    (i : ℕ)
    → i < 256
    → get_terrestrial_region_from_id i ≡ region_of_name i (get_prefecture_name_from_region_id i)
get_terrestrial_region_from_id-region_of i h =
    let e =
      below_table 256 (λ i. code (get_terrestrial_region_from_id i))
        (λ i. code (region_of_name i (get_prefecture_name_from_region_id i))) i region_table h in
    sym (decode-code _) ∙ ap decode e ∙ decode-code _
