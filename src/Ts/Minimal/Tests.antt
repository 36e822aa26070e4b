-- ===== src/Ts/Minimal/Tests.antt =====
-- The theorems of the passive scanner's parser at concrete packets.
use recisdb_proxy_rs.Base.{
  ℕ, ◌≡◌, ◌≢◌, refl, Bool, some, List, [], ◌∷◌, ◌++◌, replicate, concat, map, ok, panicked,
}
use recisdb_proxy_rs.Ts.Access.{Parse, ◌>>=◌}
use recisdb_proxy_rs.Ts.Minimal.Tables.{Text}
use recisdb_proxy_rs.Ts.Minimal.{MinimalTsParser, new, feed, is_complete}
use recisdb_proxy_rs.Ts.Minimal.PanicFree.{feed-ne-panicked}
use recisdb_proxy_rs.Ts.Minimal.Aligned.{process_all, feed-packets}

-- Strings that are always valid.
abbrev text : Text
text = record { from_utf8 = λ bytes. some bytes; from_utf8_lossy = λ bytes. bytes }

-- A program association table with program 1024 of transport stream 0x7FE8.
abbrev pat_packet : List ℕ
pat_packet =
    71
    ∷ 64
    ∷ 0
    ∷ 16
    ∷ 0
    ∷ 0
    ∷ 176
    ∷ 13
    ∷ 127
    ∷ 232
    ∷ 193
    ∷ 0
    ∷ 0
    ∷ 4
    ∷ 0
    ∷ 225
    ∷ 0
    ∷ 1
    ∷ 2
    ∷ 3
    ∷ 4
    ∷ replicate 167 0xFF

abbrev two_packets : List (List ℕ)
two_packets = pat_packet ∷ pat_packet ∷ []

feed-ne-panicked_example : feed text (1 ∷ 2 ∷ pat_packet) new ≢ panicked
feed-ne-panicked_example = feed-ne-panicked text (1 ∷ 2 ∷ pat_packet) new

feed-packets_example :
    feed text ((1 ∷ 2 ∷ []) ++ concat two_packets) new
    ≡ (process_all text two_packets new >>= λ p'. ok (p', is_complete p'))
feed-packets_example =
    feed-packets text (1 ∷ 2 ∷ []) two_packets new (refl, (refl, tt))
      ((refl, refl), ((refl, refl), tt))

-- The services that are known after a run.
abbrev service_ids : Parse (MinimalTsParser × Bool) → List ℕ
service_ids (ok r) = map (λ e. e.0) r.0.result.services
service_ids _ = []

one_service : service_ids (feed text pat_packet new) ≡ 1024 ∷ []
unfolding feed new
one_service = refl
