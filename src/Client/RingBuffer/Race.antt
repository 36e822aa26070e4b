-- ===== src/Client/RingBuffer/Race.antt =====
-- The consumer's load and store of the read position with a write of the producer between them.
use recisdb_proxy_rs.Base.{ℕ, ◌+◌, ◌-◌, ◌%◌, ◌≤◌, ◌<◌, ◌≡◌, ap, ◌∙◌, sym, List, length, min, arith}
use recisdb_proxy_rs.Client.RingBuffer.{TsRingBuffer, distance, available, write, consume_store}
use recisdb_proxy_rs.Client.RingBuffer.Cells.{
  shift, mod-shift, shift-lt, distance-shift, shift-distance, distance-lt,
}
use recisdb_proxy_rs.Client.RingBuffer.View.{IsRing}

-- `consume` loads the read position, `write` runs in the producer's thread, `consume` stores.
unfoldable pub consume_across_write : ℕ → ℕ → List ℕ → TsRingBuffer → TsRingBuffer
consume_across_write size count bytes b = consume_store size b.read_pos count (write size bytes b).0

module _ (size : ℕ) where
  write-write_pos :
      (b : TsRingBuffer) (bytes : List ℕ)
      → 0 < min (length bytes) (size - 1)
      → (write size bytes b).0.write_pos ≡ (b.write_pos + min (length bytes) (size - 1)) % size
  unfolding write
  write-write_pos b bytes h = ground arith

  -- A write of fewer bytes than the buffer has cells runs between the load and the store of `consume`.
  -- When the bytes that were available and the new ones together are at least a whole buffer more than
  -- `consume` takes, then the store undoes the discard of the write and the positions have passed each
  -- other: of those bytes, less the ones consumed, the reader finds a whole buffer fewer available.
  pub consume_across_write_loses :
      (b : TsRingBuffer) (bytes : List ℕ) (count : ℕ)
      → IsRing size b
      → count ≤ available size b
      → length bytes < size
      → size + count ≤ available size b + length bytes
      → available size (consume_across_write size count bytes b) + size + count
        ≡ available size b + length bytes
  unfolding consume_across_write consume_store available
  consume_across_write_loses b bytes count v hc hl over =
      let r = b.read_pos in
      let w = b.write_pos in
      let n = length bytes in
      let a = distance size r w in
      let a_in = distance-lt size r w v.read_in v.write_in in
      let at_w = sym (shift-distance size r w v.read_in v.write_in) in
      let all : min n (size - 1) ≡ n = omega arith in
      let moved = write-write_pos b bytes (omega arith) in
      let r' = shift size r count in
      let k = a + n - size - count in
      let to : shift size w n ≡ shift size r' k = ground arith in
      let here' = mod-shift size r count v.read_in (omega arith) in
      let there = mod-shift size w n v.write_in (omega arith) in
      let r'_in = shift-lt size r count v.read_in (omega arith) in
      let dist : distance size ((r + count) % size) (write size bytes b).0.write_pos ≡ k =
        ap (λ p. distance size p (write size bytes b).0.write_pos) here'
        ∙ ap (distance size r') (moved ∙ ap (λ m. (w + m) % size) all ∙ there ∙ to)
        ∙ distance-shift size r' k r'_in (omega arith) in
      omega (arith, dist)
