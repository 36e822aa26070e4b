-- ===== src/Client/RingBuffer/Write.antt =====
-- Writing: the queue loses its oldest bytes, whole packets of them, when more come than fit.
use recisdb_proxy_rs.Base.{
  ℕ, ◌+◌, ◌-◌, ◌*◌, ◌≤◌, ◌<◌, ◌≡◌, refl, ap, ◌∙◌, sym, inl, inr, Bool-cases, false, List, ◌++◌,
  append-nil, length, take, drop, length-take, drop-append_le, drop-append_ge, take-add, ltb, leb,
  ltb→lt, le_of_ltb, ◌==◌, min, arith, subst,
}
use recisdb_proxy_rs.Client.RingBuffer.{
  TsRingBuffer, distance, available, free_space, round_up, copy, write_free, write_read_pos,
  write_bytes, write,
}
use recisdb_proxy_rs.Client.RingBuffer.Cells.{
  shift, cells, put_cells, mod-shift, shift-lt, distance-shift, shift-distance, distance-lt,
  length-cells, cells-put, cells-untouched, cells-append, drop-cells, copy-put, put-append,
}
use recisdb_proxy_rs.Client.RingBuffer.View.{contents, IsRing, discarded}

module _ (size : ℕ) where
  -- `lost` of `a` bytes and the bytes that come are dropped: within the old bytes.
  ring_keep :
      (mem : ℕ → ℕ) (r a lost : ℕ) (bs : List ℕ) (w r' : ℕ)
      → w ≡ shift size r a
      → r' ≡ shift size r lost
      → r < size
      → a < size
      → lost ≤ a
      → a - lost + length bs < size
      → cells size (put_cells size mem w bs) r' (distance size r' (shift size w (length bs)))
        ≡ drop lost (cells size mem r a ++ bs)
  ring_keep mem r a lost bs w r' ew er hr ha hl fits =
      let left = a - lost in
      let in' : r' < size = ground arith in
      let at_w : w ≡ shift size r' left = ground arith in
      let to : shift size w (length bs) ≡ shift size r' (left + length bs) = ground arith in
      let old = cells size mem r a in
      rw (to, distance-shift size r' (left + length bs) in' fits)
        (sym (
            cells-append size (put_cells size mem w bs) r' left (length bs) w at_w in'
              (omega arith))
          ∙ ap (λ l. l ++ cells size (put_cells size mem w bs) w (length bs))
              (cells-untouched size mem r' left bs w at_w in' (omega arith)
                ∙ sym (drop-cells size mem r lost a r' er hr hl (omega arith)))
          ∙ ap (◌++◌ (drop lost old)) (cells-put size mem w bs (ground arith) (omega arith))
          ∙ sym (drop-append_le lost old bs (omega (arith, length-cells size mem r a, hl))))

  -- Beyond them: `j` of the bytes that come are dropped too.
  ring_drop :
      (mem : ℕ → ℕ) (r a j : ℕ) (bs : List ℕ) (w r' : ℕ)
      → w ≡ shift size r a
      → r' ≡ shift size r (a + j)
      → r < size
      → a + j ≤ size
      → a < size
      → j ≤ length bs
      → length bs < size
      → cells size (put_cells size mem w bs) r' (distance size r' (shift size w (length bs)))
        ≡ drop (a + j) (cells size mem r a ++ bs)
  ring_drop mem r a j bs w r' ew er hr hj ha hb fits =
      let n = length bs in
      let in' : r' < size = ground arith in
      let on : r' ≡ shift size w j = ground arith in
      let to : shift size w n ≡ shift size r' (n - j) = ground arith in
      let old = cells size mem r a in
      rw (to, distance-shift size r' (n - j) in' (omega arith))
        (sym (drop-cells size (put_cells size mem w bs) w j n r' on (ground arith) hb (omega arith))
          ∙ ap (drop j) (cells-put size mem w bs (ground arith) (omega arith))
          ∙ sym (drop-append_ge j old bs)
          ∙ ap (λ m. drop (m + j) (old ++ bs)) (length-cells size mem r a))

  -- The two copies of `write` write the cells from the write position on.
  write_bytes-put :
      (mem : ℕ → ℕ) (w n : ℕ) (bytes : List ℕ)
      → w < size
      → n ≤ length bytes
      → n < size
      → write_bytes size mem w n bytes ≡ put_cells size mem w (take n bytes)
  unfolding write_bytes
  write_bytes-put mem w n bytes hw hn hs = elim (Bool-cases (ltb (size - w) n)) [
    | inl wraps ↦
        let k = size - w in
        let past : k < n = ltb→lt k n wraps in
        let first : min n k ≡ k = omega arith in
        let front = take k bytes in
        let rest = take (n - k) (drop k bytes) in
        let front_len : length front ≡ k = omega (arith, length-take k bytes) in
        let rest_len : length rest ≤ size = omega (arith, length-take (n - k) (drop k bytes)) in
        let whole : take n bytes ≡ front ++ rest =
          ap (λ m. take m bytes) (omega arith) ∙ take-add k (n - k) bytes in
        rw (first, wraps, whole)
          (ap (λ m. copy m 0 rest) (copy-put size mem w front (omega arith))
            ∙ copy-put size (put_cells size mem w front) 0 rest (omega arith)
            ∙ sym (put-append size mem w front rest 0 (ground arith) hw (omega arith)))
    | inr fits ↦
        let within : n ≤ size - w = le_of_ltb (size - w) n fits in
        let first : min n (size - w) ≡ n = omega arith in
        let same : ltb n n ≡ false = ground arith in
        rw (first, same) (copy-put size mem w (take n bytes) (omega (arith, length-take n bytes)))
  ]

  write_free-free_space :
      (b : TsRingBuffer)
      → IsRing size b
      → write_free size b.write_pos b.read_pos ≡ free_space size b
  unfolding write_free free_space available distance
  write_free-free_space b v = ground arith

-- Rounding up to packets.
round_up-ge : (n : ℕ) → n ≤ round_up n
unfolding round_up
round_up-ge n = omega arith

round_up-le : (n : ℕ) → round_up n ≤ n + 187
unfolding round_up
round_up-le n = omega arith

round_up-within : (n packets : ℕ) → n ≤ 188 * packets → round_up n ≤ 188 * packets
unfolding round_up
round_up-within n packets h = omega arith

module _ (size packets : ℕ) (whole : size ≡ 188 * packets) (positive : 0 < packets) where
  discarded_bounds :
      (b : TsRingBuffer) (n : ℕ)
      → IsRing size b
      → n < size
      → (discarded size b n ≤ size)
        × (discarded size b n ≤ available size b + n)
        × (available size b + n < size + discarded size b n)
  unfolding free_space available
  discarded_bounds b n v hn =
      let a = distance-lt size b.read_pos b.write_pos v.read_in v.write_in in
      let k = n - (size - distance size b.read_pos b.write_pos - 1) in
      let k_in : k ≤ 188 * packets = omega arith in
      let up = round_up-within k packets k_in in ground (arith, a, round_up-ge k, round_up-le k, up)

  read_pos-shift :
      (b : TsRingBuffer) (n : ℕ)
      → IsRing size b
      → n < size
      → write_read_pos size b.read_pos (write_free size b.write_pos b.read_pos) n
        ≡ shift size b.read_pos (discarded size b n)
  unfolding write_read_pos
  read_pos-shift b n v hn =
      let bounds = discarded_bounds b n v hn in
      rw (write_free-free_space size b v) (elim (Bool-cases (ltb (free_space size b) n)) [
        | inl over ↦
            let k = n - free_space size b in
            let lost : discarded size b n ≡ round_up k = rw over refl in
            rw over
              (mod-shift size b.read_pos (round_up k) v.read_in (omega (arith, bounds.0, lost)))
        | inr fits ↦ let r = v.read_in in rw fits (ground arith)
      ])

  -- The state after a write of some bytes.
  written : TsRingBuffer → List ℕ → TsRingBuffer
  written b bs = record {
    bytes = put_cells size b.bytes b.write_pos bs;
    write_pos = shift size b.write_pos (length bs);
    read_pos = shift size b.read_pos (discarded size b (length bs));
  }

  written-contents :
      (b : TsRingBuffer) (bs : List ℕ)
      → IsRing size b
      → length bs < size
      → contents size (written b bs) ≡ drop (discarded size b (length bs)) (contents size b ++ bs)
  unfolding written available
  written-contents b bs v hn =
      let n = length bs in
      let a = distance size b.read_pos b.write_pos in
      let bounds = discarded_bounds b n v hn in
      let lost = discarded size b n in
      let a_in = distance-lt size b.read_pos b.write_pos v.read_in v.write_in in
      let at_w = sym (shift-distance size b.read_pos b.write_pos v.read_in v.write_in) in
      elim (Bool-cases (leb lost a)) [
        | inl within ↦
            ring_keep size b.bytes b.read_pos a lost bs b.write_pos _ at_w refl v.read_in a_in
              (ground arith) (ground arith)
        | inr beyond ↦
            let j = lost - a in
            let split : a + j ≡ lost = ground arith in
            ring_drop size b.bytes b.read_pos a j bs b.write_pos (shift size b.read_pos lost) at_w
              (ap (shift size b.read_pos) (sym split)) v.read_in (omega (arith, bounds, split)) a_in
              (omega (arith, bounds, split)) hn
            ∙ ap (λ m. drop m (contents size b ++ bs)) split
      ]

  -- What `write` does, as one step.
  write-written :
      (b : TsRingBuffer) (bytes : List ℕ)
      → IsRing size b
      → let n = min (length bytes) (size - 1) in
        0 < n → write size bytes b ≡ (written b (take n bytes), n)
  unfolding write written
  write-written b bytes v pos =
      let n = min (length bytes) (size - 1) in
      let more : (n == 0) ≡ false = ground arith in
      let len : length (take n bytes) ≡ n = omega (arith, length-take n bytes) in
      let n_in : n < size = omega arith in
      rw (more, len)
        (λ i. (
          record {
            bytes =
                write_bytes-put size b.bytes b.write_pos n bytes v.write_in (omega arith) n_in i;
            write_pos = mod-shift size b.write_pos n v.write_in (omega arith) i;
            read_pos = read_pos-shift b n v n_in i;
          },
          n,
        ))

  written-IsRing :
      (b : TsRingBuffer) (bs : List ℕ)
      → IsRing size b
      → length bs < size
      → IsRing size (written b bs)
  unfolding written
  written-IsRing b bs v hn = record {
    write_in = shift-lt size b.write_pos (length bs) v.write_in (omega arith);
    read_in =
        shift-lt size b.read_pos (discarded size b (length bs)) v.read_in
          (discarded_bounds b (length bs) v hn).0;
  }

  write_nothing :
      (b : TsRingBuffer) (bytes : List ℕ)
      → min (length bytes) (size - 1) ≡ 0
      → write size bytes b ≡ (b, 0)
  unfolding write
  write_nothing b bytes e = rw (e, write) refl

  discards_nothing :
      (b : TsRingBuffer) (bytes : List ℕ)
      → contents size b ≡ drop (discarded size b 0) (contents size b ++ take 0 bytes)
  discards_nothing b bytes =
      let fits : ltb (free_space size b) 0 ≡ false = ground arith in
      rw fits (sym (append-nil (contents size b)))

  -- A write into a buffer of whole packets keeps both positions inside it, takes all bytes up to one
  -- less than the size, and appends them to the queue. If they do not fit, then the oldest bytes of
  -- the queue with the new ones behind it are discarded: those that are too many, rounded up to whole
  -- packets, and nothing else.
  pub write-contents :
      (b : TsRingBuffer) (bytes : List ℕ)
      → IsRing size b
      → let n = min (length bytes) (size - 1) in
        let w = write size bytes b in
        IsRing size w.0
        × (w.1 ≡ n)
        × (contents size w.0 ≡ drop (discarded size b n) (contents size b ++ take n bytes))
  write-contents b bytes v = elim (Bool-cases (ltb 0 n)) [
    | inl more ↦
        let len : length (take n bytes) ≡ n = omega (arith, length-take n bytes) in
        let fits : length (take n bytes) < size = omega arith in
        subst Spec (sym (write-written b bytes v (ltb→lt 0 n more))) (
          written-IsRing b (take n bytes) v fits,
          refl,
          written-contents b (take n bytes) v fits
              ∙ ap (λ m. drop (discarded size b m) (contents size b ++ take n bytes)) len,
        )
    | inr nothing ↦
        let zero_len : n ≡ 0 = omega (arith, le_of_ltb 0 n nothing) in
        subst Spec (sym (write_nothing b bytes zero_len)) (
          v,
          sym zero_len,
          subst (λ m. contents size b ≡ drop (discarded size b m) (contents size b ++ take m bytes))
              (sym zero_len) (discards_nothing b bytes),
        )
  ]
    where
      n : ℕ
      n = min (length bytes) (size - 1)

      Spec : TsRingBuffer × ℕ → Type 0
      Spec x =
          IsRing size x.0
          × (x.1 ≡ n)
          × (contents size x.0 ≡ drop (discarded size b n) (contents size b ++ take n bytes))
