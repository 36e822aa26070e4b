-- ===== src/Protocol/Cut/Progress.antt =====
-- A receiver's step on any bytes: it never panics, and a frame that it takes makes the buffer shorter.
use recisdb_proxy_rs.Base.{
  ℕ, ◌+◌, ◌≤◌, ◌≡◌, ◌≢◌, refl, ap, Bool-cases, inl, inr, Bool, true, false, Option, none, some,
  List, length, length-drop, drop, ltb, le_of_ltb, if◌then◌else◌, arith, ok, err, panicked,
}
use recisdb_proxy_rs.Protocol.Error.{ProtocolError, Result}
use recisdb_proxy_rs.Protocol.MessageType.{MessageType}
use recisdb_proxy_rs.Protocol.Frame.{FrameHeader, header_of, decode_header}
use recisdb_proxy_rs.Protocol.Cut.{Cut, frame, faulted, cut, cut_result, cut_at}

-- What is left in the buffer, for a measure.
abbrev left_in : Cut → ℕ
left_in (frame t payload rest) = length rest + 10
left_in _ = 0

cut_at-left_in :
    (header : FrameHeader) (buf : List ℕ)
    → 10 ≤ length buf
    → left_in (cut_at header buf) ≤ length buf
unfolding cut_at
cut_at-left_in header buf h = elim (Bool-cases (ltb (length buf) (10 + header.payload_len))) [
  | inl short ↦ rw short (omega arith)
  | inr long ↦
      rw long (omega (arith, length-drop header.payload_len (drop 10 buf), length-drop 10 buf, h))
]

cut_result-left_in :
    (r : Result (Option FrameHeader)) (buf : List ℕ)
    → 10 ≤ length buf
    → left_in (cut_result r buf) ≤ length buf
unfolding cut_result
cut_result-left_in (ok none) buf h = omega arith
cut_result-left_in (ok (some header)) buf h = cut_at-left_in header buf h
cut_result-left_in (err e) buf h = omega arith
cut_result-left_in panicked buf h = omega arith

cut-left_in : (buf : List ℕ) → left_in (cut buf) ≤ length buf
unfolding cut
cut-left_in buf = elim (Bool-cases (ltb (length buf) 10)) [
  | inl short ↦ rw short (omega arith)
  | inr long ↦ rw long (cut_result-left_in (decode_header buf) buf (le_of_ltb (length buf) 10 long))
]

pub cut-shorter :
    (buf : List ℕ) (t : MessageType) (payload rest : List ℕ)
    → cut buf ≡ frame t payload rest
    → length rest + 10 ≤ length buf
cut-shorter buf t payload rest e = omega (arith, ap left_in e, cut-left_in buf)

header_of-ne-panicked :
    (payload_len : ℕ) (t : Option MessageType) (type_val : ℕ)
    → header_of payload_len t type_val ≢ panicked
unfolding header_of
header_of-ne-panicked payload_len none type_val = λ e. cc
header_of-ne-panicked payload_len (some t) type_val = λ e. cc

if-ne-panicked :
    {A : Type 0} (t : Bool) (p q : Result A)
    → p ≢ panicked
    → q ≢ panicked
    → (if t then p else q) ≢ panicked
if-ne-panicked true p q h k = h
if-ne-panicked false p q h k = k

err-ne-panicked : {A : Type 0} (e : ProtocolError) → ◌≢◌ {A = Result A} (err e) panicked
err-ne-panicked e = λ k. cc

ok-ne-panicked : {A : Type 0} (a : A) → ◌≢◌ {A = Result A} (ok a) panicked
ok-ne-panicked a = λ k. cc

decode_header-ne-panicked : (buf : List ℕ) → decode_header buf ≢ panicked
unfolding decode_header
decode_header-ne-panicked buf = if-ne-panicked (ltb (length buf) 10) _ _ (ok-ne-panicked none) (
    if-ne-panicked _ _ _ (if-ne-panicked _ _ _ (err-ne-panicked _) (header_of-ne-panicked _ _ _))
      (err-ne-panicked _))

cut_result-ne-faulted :
    (r : Result (Option FrameHeader)) (buf : List ℕ) → r ≢ panicked → cut_result r buf ≢ faulted
unfolding cut_result cut_at
cut_result-ne-faulted (ok none) buf h = λ e. cc
cut_result-ne-faulted (ok (some header)) buf h =
    elim (Bool-cases (ltb (length buf) (10 + header.payload_len))) [
      | inl short ↦ rw short (λ e. cc)
      | inr long ↦ rw long (λ e. cc)
    ]
cut_result-ne-faulted (err x) buf h = λ e. cc
cut_result-ne-faulted panicked buf h = absurd (h refl)

pub cut-ne-faulted : (buf : List ℕ) → cut buf ≢ faulted
unfolding cut
cut-ne-faulted buf = elim (Bool-cases (ltb (length buf) 10)) [
  | inl short ↦ rw short (λ e. cc)
  | inr long ↦
      rw long (cut_result-ne-faulted (decode_header buf) buf (decode_header-ne-panicked buf))
]
