-- ===== src/Client/RingBuffer/Tests.antt =====
-- The ring buffer at one packet's size.
use recisdb_proxy_rs.Base.{ℕ, ◌+◌, ◌≤◌, ◌≡◌, refl, List, [], ◌∷◌, arith}
use recisdb_proxy_rs.Client.RingBuffer.{
  TsRingBuffer, write, read_into, consume, available, free_space, distance,
}
use recisdb_proxy_rs.Client.RingBuffer.Cells.{cells}
use recisdb_proxy_rs.Client.RingBuffer.View.{contents, IsRing}
use recisdb_proxy_rs.Client.RingBuffer.Write.{write-contents}
use recisdb_proxy_rs.Client.RingBuffer.Read.{read_into-contents, consume-contents}
use recisdb_proxy_rs.Client.RingBuffer.Race.{consume_across_write, consume_across_write_loses}

-- Six bytes wait, over the end of 188.
abbrev waiting : TsRingBuffer
waiting = record { bytes = λ i. i; write_pos = 4; read_pos = 186 }

waiting-IsRing : IsRing 188 waiting
waiting-IsRing = record { write_in = omega arith; read_in = omega arith }

write-contents_example :
    IsRing 188 (write 188 (71 ∷ 72 ∷ 73 ∷ []) waiting).0
    × ((write 188 (71 ∷ 72 ∷ 73 ∷ []) waiting).1 ≡ 3)
    × (contents 188 (write 188 (71 ∷ 72 ∷ 73 ∷ []) waiting).0
        ≡ 186 ∷ 187 ∷ 0 ∷ 1 ∷ 2 ∷ 3 ∷ 71 ∷ 72 ∷ 73 ∷ [])
unfolding available free_space distance cells write
write-contents_example =
    write-contents 188 1 refl (omega arith) waiting (71 ∷ 72 ∷ 73 ∷ []) waiting-IsRing

read_into-contents_example : read_into 188 4 waiting ≡ (186 ∷ 187 ∷ 0 ∷ 1 ∷ [], 4, 2)
unfolding available distance cells
read_into-contents_example = read_into-contents 188 waiting 4 waiting-IsRing

waiting_six : 5 ≤ available 188 waiting
unfolding available distance cells
waiting_six = omega arith

consume-contents_example :
    IsRing 188 (consume 188 5 waiting) × (contents 188 (consume 188 5 waiting) ≡ 3 ∷ [])
unfolding available distance cells
consume-contents_example = consume-contents 188 waiting 5 waiting-IsRing waiting_six

-- All but one of the bytes wait.
abbrev full : TsRingBuffer
full = record { bytes = λ i. i; write_pos = 187; read_pos = 0 }

full-IsRing : IsRing 188 full
full-IsRing = record { write_in = omega arith; read_in = omega arith }

abbrev more : List ℕ
more = 71 ∷ 72 ∷ 73 ∷ []

full-available : available 188 full ≡ 187
unfolding available distance cells
full-available = refl

consume_across_write_loses_example :
    available 188 (consume_across_write 188 2 more full) + 188 + 2 ≡ available 188 full + 3
consume_across_write_loses_example =
    consume_across_write_loses 188 full more 2 full-IsRing (omega (arith, full-available))
      (omega arith) (omega (arith, full-available))
