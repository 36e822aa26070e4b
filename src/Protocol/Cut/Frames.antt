-- ===== src/Protocol/Cut/Frames.antt =====
-- A receiver finds a whole frame at the start of its buffer, and waits on a part of one.
use recisdb_proxy_rs.Base.{
  ℕ, ◌+◌, ◌≤◌, ◌<◌, ◌≡◌, refl, sym, ap, ◌∙◌, some, List, ◌++◌, length, take, drop, ltb, take-append,
  take-append_le, drop-append, drop-append_le, length-drop, length-append, ltb_of_le, lt→ltb,
  ltb→lt, le_of_ltb, take-append-drop, false, Bool-cases, inl, inr, arith, ok,
}
use recisdb_proxy_rs.Protocol.MessageType.{MessageType}
use recisdb_proxy_rs.Protocol.Frame.{max_frame_size, decode_header}
use recisdb_proxy_rs.Protocol.Roundtrip.Frames.{frame_bytes, decode_header-frame}
use recisdb_proxy_rs.Protocol.Cut.{waiting, frame, cut, cut_result, cut_at}

pub length-frame_bytes :
    (t : MessageType) (payload : List ℕ) → length (frame_bytes t payload) ≡ 10 + length payload
length-frame_bytes t payload = omega arith

pub cut-frame_bytes :
    (t : MessageType) (payload rest : List ℕ)
    → length payload ≤ max_frame_size
    → cut (frame_bytes t payload ++ rest) ≡ frame t payload rest
unfolding cut cut_result cut_at
cut-frame_bytes t payload rest h =
    let buf = frame_bytes t payload ++ rest in
    let len : length buf ≡ 10 + length payload + length rest =
      omega (arith, length-append (frame_bytes t payload) rest, length-frame_bytes t payload) in
    rw (ltb_of_le (length buf) 10 (omega (arith, len))) (
      rw (decode_header-frame t payload rest h) (
        rw (ltb_of_le (length buf) (10 + length payload) (omega (arith, len)))
          (rw (take-append payload rest) (rw (drop-append payload rest) refl))))

-- The header stands in the first ten bytes.
decode_header-append :
    (buf more : List ℕ) → 10 ≤ length buf → decode_header (buf ++ more) ≡ decode_header buf
unfolding decode_header
decode_header-append buf more h =
    let long : ltb (length (buf ++ more)) 10 ≡ false =
      ltb_of_le (length (buf ++ more)) 10 (omega (arith, length-append buf more)) in
    rw (long, ltb_of_le (length buf) 10 h)
      (rw (take-append_le 4 buf more (omega arith)) (
        rw (drop-append_le 4 buf more (omega arith)) (
          rw (take-append_le 4 (drop 4 buf) more (omega (arith, length-drop 4 buf))) (
            rw (drop-append_le 8 buf more (omega arith))
              (rw (take-append_le 2 (drop 8 buf) more (omega (arith, length-drop 8 buf))) refl)))))

header_there-waiting :
    (buf : List ℕ) (t : MessageType) (n : ℕ)
    → 10 ≤ length buf
    → length buf < 10 + n
    → decode_header buf ≡ ok (some (record { payload_len = n; message_type = t }))
    → cut buf ≡ waiting
unfolding cut cut_result cut_at
header_there-waiting buf t n h k e =
    rw (ltb_of_le (length buf) 10 h) (rw e (rw (lt→ltb (length buf) (10 + n) k) refl))

header_missing-waiting : (buf : List ℕ) → length buf < 10 → cut buf ≡ waiting
unfolding cut
header_missing-waiting buf h = rw (lt→ltb (length buf) 10 h) refl

pub cut-part :
    (buf more : List ℕ) (t : MessageType) (payload rest : List ℕ)
    → length payload ≤ max_frame_size
    → buf ++ more ≡ frame_bytes t payload ++ rest
    → length buf < 10 + length payload
    → cut buf ≡ waiting
cut-part buf more t payload rest h e k = elim (Bool-cases (ltb (length buf) 10)) [
  | inl short ↦ header_missing-waiting buf (ltb→lt (length buf) 10 short)
  | inr long ↦
      let ten = le_of_ltb (length buf) 10 long in
      header_there-waiting buf t (length payload) ten k (
        sym (decode_header-append buf more ten)
        ∙ ap decode_header e
        ∙ decode_header-frame t payload rest h)
]

-- A buffer that holds the first frame of a stream holds it in front.
pub cut-whole :
    (buf more : List ℕ) (t : MessageType) (payload rest : List ℕ)
    → length payload ≤ max_frame_size
    → buf ++ more ≡ frame_bytes t payload ++ rest
    → 10 + length payload ≤ length buf
    → (left : List ℕ) × (cut buf ≡ frame t payload left) × (left ++ more ≡ rest)
cut-whole buf more t payload rest h e k =
    let n = 10 + length payload in
    let whole : take n buf ≡ frame_bytes t payload =
      sym (take-append_le n buf more k)
      ∙ ap (take n) e
      ∙ ap (λ m. take m (frame_bytes t payload ++ rest)) (sym (length-frame_bytes t payload))
      ∙ take-append (frame_bytes t payload) rest in
    let behind : drop n buf ++ more ≡ rest =
      sym (drop-append_le n buf more k)
      ∙ ap (drop n) e
      ∙ ap (λ m. drop m (frame_bytes t payload ++ rest)) (sym (length-frame_bytes t payload))
      ∙ drop-append (frame_bytes t payload) rest in
    (
      drop n buf,
      ap cut (sym (take-append-drop n buf) ∙ ap (λ l. l ++ drop n buf) whole)
          ∙ cut-frame_bytes t payload (drop n buf) h,
      behind,
    )
