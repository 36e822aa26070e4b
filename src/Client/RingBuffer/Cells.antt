-- ===== src/Client/RingBuffer/Cells.antt =====
-- Cells of the ring, counted on from a position: reading and writing a run of them.
use native.Mathlib.Nat.{mod-eq_of_lt, mod-eq-sub-mod, zero-add, suc-add, sub-zero}
use recisdb_proxy_rs.Base.{
  ℕ, zero, suc, ◌+◌, ◌-◌, ◌%◌, ◌≤◌, ◌<◌, ◌≡◌, refl, ap, ◌∙◌, ◌⊎◌, inl, inr, Bool-cases, false, List,
  [], ◌∷◌, ◌++◌, length, take, drop, ltb, ltb→lt, le_of_ltb, ==_refl, ◌==◌, if◌then◌else◌, arith,
}
use recisdb_proxy_rs.Client.RingBuffer.{update, copy, slice, distance}

module _ (size : ℕ) where
  -- The position `k` cells on, for `k` up to `size`.
  abbrev pub shift : ℕ → ℕ → ℕ
  shift pos k = if ltb (pos + k) size then pos + k else pos + k - size

  abbrev pub step : ℕ → ℕ
  step pos = shift pos 1

  pub mod-shift : (pos k : ℕ) → pos < size → k ≤ size → (pos + k) % size ≡ shift pos k
  mod-shift pos k h hk = elim (Bool-cases (ltb (pos + k) size)) [
    | inl within ↦ rw within (mod-eq_of_lt (ltb→lt (pos + k) size within))
    | inr past ↦
        let over : size ≤ pos + k = le_of_ltb (pos + k) size past in
        rw past (mod-eq-sub-mod over ∙ mod-eq_of_lt (omega arith))
  ]

  pub shift-lt : (pos k : ℕ) → pos < size → k ≤ size → shift pos k < size
  shift-lt pos k h hk = ground arith

  pub shift-shift :
      (pos j k : ℕ) → pos < size → j + k ≤ size → shift (shift pos j) k ≡ shift pos (j + k)
  shift-shift pos j k h hk = ground arith

  pub distance-shift : (pos k : ℕ) → pos < size → k < size → distance size pos (shift pos k) ≡ k
  unfolding distance
  distance-shift pos k h hk = ground arith

  pub shift-distance :
      (read write : ℕ) → read < size → write < size → shift read (distance size read write) ≡ write
  unfolding distance
  shift-distance read write h hw = ground arith

  pub distance-lt : (read write : ℕ) → read < size → write < size → distance size read write < size
  unfolding distance
  distance-lt read write h hw = ground arith

  -- The contents of `n` cells.
  unfoldable pub cells : (ℕ → ℕ) → ℕ → ℕ → List ℕ
  cells mem pos zero = []
  cells mem pos (suc n) = mem pos ∷ cells mem (step pos) n

  pub put_cells : (ℕ → ℕ) → ℕ → List ℕ → ℕ → ℕ
  put_cells mem pos [] = mem
  put_cells mem pos (b ∷ bs) = put_cells (update mem pos b) (step pos) bs

  -- `p` is not among the `n` cells from `pos`.
  abbrev pub Outside : ℕ → ℕ → ℕ → Type 0
  Outside p pos n = (pos + n ≤ p) ⊎ ((p < pos) × (pos + n ≤ p + size))

  put_cells-Outside :
      (mem : ℕ → ℕ) (pos : ℕ) (bs : List ℕ) (p : ℕ)
      → pos < size
      → p < size
      → Outside p pos (length bs)
      → put_cells mem pos bs p ≡ mem p
  unfolding put_cells update
  put_cells-Outside mem pos [] p h hp o = refl
  put_cells-Outside mem pos (b ∷ bs) p h hp o =
      let rest : Outside p (step pos) (length bs) = ground arith in
      let ne : (pos == p) ≡ false = ground arith in
      put_cells-Outside (update mem pos b) (step pos) bs p (ground arith) hp rest ∙ rw ne refl

  pub length-cells : (mem : ℕ → ℕ) (pos n : ℕ) → length (cells mem pos n) ≡ n
  unfolding cells
  length-cells mem pos zero = refl
  length-cells mem pos (suc n) = ap suc (length-cells mem (step pos) n)

  -- What was put is read back.
  pub cells-put :
      (mem : ℕ → ℕ) (pos : ℕ) (bs : List ℕ)
      → pos < size
      → length bs ≤ size
      → cells (put_cells mem pos bs) pos (length bs) ≡ bs
  unfolding cells put_cells update
  cells-put mem pos [] h hl = refl
  cells-put mem pos (b ∷ bs) h hl =
      let away : Outside pos (step pos) (length bs) = ground arith in
      let kept = put_cells-Outside (update mem pos b) (step pos) bs pos (ground arith) h away in
      let head : update mem pos b pos ≡ b = rw (==_refl pos, update) refl in
      let tail = cells-put (update mem pos b) (step pos) bs (ground arith) (omega arith) in
      rw (kept ∙ head) (ap (◌∷◌ b) tail)

  -- A write behind `n` cells leaves them alone.
  pub cells-untouched :
      (mem : ℕ → ℕ) (pos n : ℕ) (bs : List ℕ) (w : ℕ)
      → w ≡ shift pos n
      → pos < size
      → n + length bs ≤ size
      → cells (put_cells mem w bs) pos n ≡ cells mem pos n
  unfolding cells
  cells-untouched mem pos zero bs w e h hn = refl
  cells-untouched mem pos (suc n) bs w e h hn =
      let away : Outside pos w (length bs) = ground arith in
      let head = put_cells-Outside mem w bs pos (ground arith) h away in
      let tail =
        cells-untouched mem (step pos) n bs w (ground arith) (ground arith) (omega arith) in
      rw head (ap (◌∷◌ (mem pos)) tail)

  pub cells-append :
      (mem : ℕ → ℕ) (pos n m : ℕ) (w : ℕ)
      → w ≡ shift pos n
      → pos < size
      → n + m ≤ size
      → cells mem pos n ++ cells mem w m ≡ cells mem pos (n + m)
  unfolding cells
  cells-append mem pos zero m w e h hn =
      let same : w ≡ pos = ground arith in rw (same, zero-add) refl
  cells-append mem pos (suc n) m w e h hn = rw suc-add (
      ap (◌∷◌ (mem pos))
        (cells-append mem (step pos) n m w (ground arith) (ground arith) (omega arith)))

  pub drop-cells :
      (mem : ℕ → ℕ) (pos k n : ℕ) (w : ℕ)
      → w ≡ shift pos k
      → pos < size
      → k ≤ n
      → n ≤ size
      → drop k (cells mem pos n) ≡ cells mem w (n - k)
  unfolding cells
  drop-cells mem pos zero n w e h hk hn =
      let same : w ≡ pos = ground arith in rw (same, sub-zero) refl
  drop-cells mem pos (suc k) zero w e h hk hn = absurd (omega arith)
  drop-cells mem pos (suc k) (suc n) w e h hk hn =
      let fewer : suc n - suc k ≡ n - k = omega arith in
      rw fewer
        (drop-cells mem (step pos) k n w (ground arith) (ground arith) (omega arith) (omega arith))

  pub take-cells : (mem : ℕ → ℕ) (pos k n : ℕ) → k ≤ n → take k (cells mem pos n) ≡ cells mem pos k
  unfolding cells
  take-cells mem pos zero n hk = refl
  take-cells mem pos (suc k) zero hk = absurd (omega arith)
  take-cells mem pos (suc k) (suc n) hk =
      ap (◌∷◌ (mem pos)) (take-cells mem (step pos) k n (omega arith))

  pub slice-cells : (mem : ℕ → ℕ) (pos n : ℕ) → pos + n ≤ size → slice mem pos n ≡ cells mem pos n
  unfolding slice cells
  slice-cells mem pos zero h = refl
  slice-cells mem pos (suc zero) h = refl
  slice-cells mem pos (suc (suc n)) h =
      let next : step pos ≡ pos + 1 = ground arith in
      rw next (ap (◌∷◌ (mem pos)) (slice-cells mem (pos + 1) (suc n) (omega arith)))

  pub copy-put :
      (mem : ℕ → ℕ) (pos : ℕ) (bs : List ℕ)
      → pos + length bs ≤ size
      → copy mem pos bs ≡ put_cells mem pos bs
  unfolding copy put_cells
  copy-put mem pos [] h = refl
  copy-put mem pos (b ∷ []) h = refl
  copy-put mem pos (b ∷ c ∷ bs) h =
      let next : step pos ≡ pos + 1 = ground arith in
      rw next (copy-put (update mem pos b) (pos + 1) (c ∷ bs) (omega arith))

  pub put-append :
      (mem : ℕ → ℕ) (pos : ℕ) (xs ys : List ℕ) (w : ℕ)
      → w ≡ shift pos (length xs)
      → pos < size
      → length xs ≤ size
      → put_cells mem pos (xs ++ ys) ≡ put_cells (put_cells mem pos xs) w ys
  unfolding put_cells
  put-append mem pos [] ys w e h hl = let same : w ≡ pos = ground arith in rw same refl
  put-append mem pos (b ∷ xs) ys w e h hl =
      put-append (update mem pos b) (step pos) xs ys w (ground arith) (ground arith) (omega arith)
