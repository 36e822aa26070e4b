-- ===== src/Client/RingBuffer/Read.antt =====
-- Reading and consuming.
use native.Mathlib.Nat.{sub-zero}
use recisdb_proxy_rs.Base.{
  ℕ, ◌+◌, ◌-◌, ◌≤◌, ◌<◌, ◌≡◌, refl, ap, ◌∙◌, sym, inl, inr, Bool-cases, false, List, [], ◌++◌, take,
  drop, ltb, ltb→lt, le_of_ltb, ◌==◌, min, if◌then◌else◌, arith,
}
use recisdb_proxy_rs.Client.RingBuffer.{
  TsRingBuffer, distance, available, slice, read_bytes, read_into, consume,
}
use recisdb_proxy_rs.Client.RingBuffer.Cells.{
  shift, cells, mod-shift, shift-lt, shift-shift, distance-shift, shift-distance, distance-lt,
  cells-append, drop-cells, take-cells, slice-cells,
}
use recisdb_proxy_rs.Client.RingBuffer.View.{contents, IsRing}

module _ (size : ℕ) where
  read_bytes-cells :
      (mem : ℕ → ℕ) (r n : ℕ) → r < size → n < size → read_bytes size mem r n ≡ cells size mem r n
  unfolding read_bytes
  read_bytes-cells mem r n hr hn = elim (Bool-cases (ltb (size - r) n)) [
    | inl wraps ↦
        let k = size - r in
        let past : k < n = ltb→lt k n wraps in
        let first : min n k ≡ k = omega arith in
        let sum : k + (n - k) ≡ n = omega arith in
        let start : 0 ≡ shift size r k = ground arith in
        rw (first, wraps)
          (ap (λ l. l ++ slice mem 0 (n - k)) (slice-cells size mem r k (omega arith))
            ∙ ap (◌++◌ (cells size mem r k)) (slice-cells size mem 0 (n - k) (omega arith))
            ∙ cells-append size mem r k (n - k) 0 start hr (omega arith)
            ∙ ap (cells size mem r) sum)
    | inr fits ↦
        let within : n ≤ size - r = le_of_ltb (size - r) n fits in
        let first : min n (size - r) ≡ n = omega arith in
        let same : ltb n n ≡ false = ground arith in
        rw (first, same) (slice-cells size mem r n (omega arith))
  ]

  -- `read_into`, with the distance of the positions as a number.
  read_total :
      (mem : ℕ → ℕ) (r total room : ℕ)
      → r < size
      → total < size
      → let n = min room total in
        ◌≡◌ {A = List ℕ × ℕ × ℕ}
          (if n == 0 then ([], 0, total) else (read_bytes size mem r n, n, total - n))
          (take n (cells size mem r total), n, total - n)
  read_total mem r total room hr ht = elim (Bool-cases (min room total == 0)) [
    | inl none_read ↦
        let zero_len : min room total ≡ 0 = ground arith in rw (zero_len, sub-zero) refl
    | inr more ↦
        let n = min room total in
        rw more (
          ap (λ l. (l, n, total - n))
            (read_bytes-cells mem r n hr (omega arith)
              ∙ sym (take-cells size mem r n total (omega arith))))
  ]

  -- The bytes that `read_into` copies are the oldest ones, in order, as many as there are and as fit
  -- into the destination; it reports how many, and how many more there are. It changes nothing.
  pub read_into-contents :
      (b : TsRingBuffer) (room : ℕ)
      → IsRing size b
      → let n = min room (available size b) in
        read_into size room b ≡ (take n (contents size b), n, available size b - n)
  unfolding read_into available
  read_into-contents b room v =
      read_total b.bytes b.read_pos (distance size b.read_pos b.write_pos) room v.read_in
        (distance-lt size b.read_pos b.write_pos v.read_in v.write_in)

  -- Consuming up to as many bytes as are available takes exactly those off the front.
  pub consume-contents :
      (b : TsRingBuffer) (count : ℕ)
      → IsRing size b
      → count ≤ available size b
      → IsRing size (consume size count b)
        × (contents size (consume size count b) ≡ drop count (contents size b))
  unfolding consume available
  consume-contents b count v h =
      let r = b.read_pos in
      let w = b.write_pos in
      let a = distance size r w in
      let a_in = distance-lt size r w v.read_in v.write_in in
      let moved = mod-shift size r count v.read_in (omega arith) in
      let r' = shift size r count in
      let r'_in : r' < size = shift-lt size r count v.read_in (omega arith) in
      let at_w = sym (shift-distance size r w v.read_in v.write_in) in
      let sum : count + (a - count) ≡ a = omega arith in
      let rejoin = shift-shift size r count (a - count) v.read_in (omega arith) in
      let to : w ≡ shift size r' (a - count) = at_w ∙ sym (ap (shift size r) sum) ∙ sym rejoin in
      (
        record { write_in = v.write_in; read_in = rw moved r'_in },
        ap (λ p. cells size b.bytes p (distance size p w)) moved
            ∙ ap (cells size b.bytes r')
                (ap (distance size r') to ∙ distance-shift size r' (a - count) r'_in (omega arith))
            ∙ sym (drop-cells size b.bytes r count a r' refl v.read_in h (omega arith)),
      )
