-- ===== src/Session/Delivery.antt =====
-- Messages reach a session's handler whole and in order, however the network cuts their bytes, up to the
-- one whose handler ends the session.
use recisdb_proxy_rs.Base.{
  ℕ, false, zero, suc, ◌≤◌, ◌<◌, ◌≡◌, refl, sym, ap, ◌∙◌, List, [], ◌∷◌, ◌++◌, append_assoc, concat,
  length, All, ok, and_then, arith, ◌⊎◌, inl, inr,
}
use recisdb_proxy_rs.Protocol.Error.{Result}
use recisdb_proxy_rs.Protocol.Messages.{ClientMessage, client_message_type}
use recisdb_proxy_rs.Protocol.Buf.{Buf, IsBuf}
use recisdb_proxy_rs.Protocol.Encode.{client_payload}
use recisdb_proxy_rs.Protocol.Frame.{encode_client_message, max_frame_size}
use recisdb_proxy_rs.Protocol.InRange.{InRange}
use recisdb_proxy_rs.Protocol.Roundtrip.Frames.{
  frame_bytes, encode_frame-layout, decode_client_message-payload,
}
use recisdb_proxy_rs.Protocol.Cut.{waiting, frame, cut}
use recisdb_proxy_rs.Protocol.Cut.Stream.{IsChunk, whole_or_part, not_all, nothing_left}
use recisdb_proxy_rs.Session.Receive.{
  End, client_disconnect, read_failed, Last, at_end, fails, read_past, Handled, goes_on, finishes,
  breaks, Handler, answered, Read, closed, failed, message, decoded, nothing, try_decode_message,
  read_message_with, run,
}

-- What a client sends: the frames of its messages, one behind the other.
abbrev pub encode_all : Buf → List ClientMessage → Result (List ℕ)
encode_all b [] = ok []
encode_all b (msg ∷ msgs) =
    and_then (encode_client_message b msg)
      λ bytes. and_then (encode_all b msgs) λ later. ok (bytes ++ later)

-- A message that the wire format carries, in a frame of at most 16 MiB.
abbrev pub IsSendable : Buf → ClientMessage → Type 0
IsSendable b msg = InRange msg × (length (client_payload b msg []) ≤ max_frame_size)

-- The messages that a handler is given when they come one by one, and why it is given no more.
abbrev pub last_end : Last → End
last_end at_end = client_disconnect
last_end fails = read_failed

last_cases : (last : Last) → (last ≡ at_end) ⊎ (last ≡ fails)
last_cases at_end = inl refl
last_cases fails = inr refl

abbrev pub handled_all :
    {S : Type 0} → Handler S → Last → S → List ClientMessage → List ClientMessage × End
handled_all h last s [] = ([], last_end last)
handled_all h last s (msg ∷ msgs) =
    let r = h.handle_message s msg in answered msg r.1 (handled_all h last r.0 msgs)

-- What is asked of the state behind a message, when the handler lets the session go on.
abbrev pub Behind : Handled → Type 0 → Type 0
Behind goes_on P = P
Behind finishes P = Unit
Behind breaks P = Unit

-- A session that does not stream while it handles these messages.
abbrev pub IsQuiet : {S : Type 0} → Handler S → S → List ClientMessage → Type 0
IsQuiet h s [] = h.is_streaming s ≡ false
IsQuiet h s (msg ∷ msgs) =
    let r = h.handle_message s msg in (h.is_streaming s ≡ false) × Behind r.1 (IsQuiet h r.0 msgs)

module _ (b : Buf) (laws : IsBuf b) (last : Last) where
  abbrev frame_of : ClientMessage → List ℕ
  frame_of msg = frame_bytes (client_message_type msg) (client_payload b msg [])

  abbrev frames : List ClientMessage → List ℕ
  frames [] = []
  frames (msg ∷ msgs) = frame_of msg ++ frames msgs

  encode_all-frames :
      (msgs : List ClientMessage) → All (IsSendable b) msgs → encode_all b msgs ≡ ok (frames msgs)
  unfolding encode_client_message
  encode_all-frames [] h = refl
  encode_all-frames (msg ∷ msgs) h =
      rw (encode_frame-layout b laws (client_message_type msg) (client_payload b msg []) h.0.1)
        (rw (encode_all-frames msgs h.1) refl)

  -- With a whole frame in front, both readers give its message.
  read-whole :
      (msg : ClientMessage) (n : ℕ) (buf left : List ℕ) (chunks : List (List ℕ))
      → IsSendable b msg
      → cut buf ≡ frame (client_message_type msg) (client_payload b msg []) left
      → read_message_with b last (suc n) buf chunks ≡ message msg left chunks
  unfolding read_message_with read_past
  read-whole msg n buf left chunks h e =
      rw (e, read_message_with) (rw (decode_client_message-payload b laws msg h.0) refl)

  try-whole :
      (msg : ClientMessage) (buf left : List ℕ)
      → IsSendable b msg
      → cut buf ≡ frame (client_message_type msg) (client_payload b msg []) left
      → try_decode_message b buf ≡ decoded msg left
  unfolding try_decode_message
  try-whole msg buf left h e =
      rw (e, try_decode_message) (rw (decode_client_message-payload b laws msg h.0) refl)

  try-part : (buf : List ℕ) → cut buf ≡ waiting → try_decode_message b buf ≡ nothing buf
  unfolding try_decode_message
  try-part buf e = rw (e, try_decode_message) refl

  read-part :
      (n : ℕ) (buf : List ℕ) (x : ℕ) (xs : List ℕ) (chunks : List (List ℕ))
      → cut buf ≡ waiting
      → read_message_with b last (suc n) buf ((x ∷ xs) ∷ chunks)
        ≡ read_message_with b last n (buf ++ x ∷ xs) chunks
  unfolding read_message_with read_past
  read-part n buf x xs chunks e = rw (e, read_message_with) refl

  -- The next message, and a stream that goes on behind it.
  record Next (msgs : List ClientMessage) (chunks : List (List ℕ)) (r : Read) (msg : ClientMessage)
      : Type 0 where
    rest : List ℕ
    left : List (List ℕ)
    reads : r ≡ message msg rest left
    goes_on : rest ++ concat left ≡ frames msgs
    chunked : All IsChunk left
    fewer : length left ≤ length chunks

  Next-weaken :
      {msgs : List ClientMessage} {chunks : List (List ℕ)} {r s : Read} {msg : ClientMessage}
      (c : List ℕ)
      → s ≡ r
      → Next msgs chunks r msg
      → Next msgs (c ∷ chunks) s msg
  Next-weaken c e x = record {
    rest = x.rest;
    left = x.left;
    reads = e ∙ x.reads;
    goes_on = x.goes_on;
    chunked = x.chunked;
    fewer = omega (arith, x.fewer);
  }

  read-Next :
      (msg : ClientMessage) (msgs : List ClientMessage) (n : ℕ) (buf : List ℕ)
      (chunks : List (List ℕ))
      → IsSendable b msg
      → All IsChunk chunks
      → buf ++ concat chunks ≡ frames (msg ∷ msgs)
      → length chunks < n
      → Next msgs chunks (read_message_with b last n buf chunks) msg
  read-Next msg msgs zero buf chunks h k e f = absurd (omega arith)
  read-Next msg msgs (suc n) buf [] h k e f = elim (whole_or_part _ _ (frames msgs) buf [] h.1 e) [
    | inl (left, there, on) ↦ record {
      rest = left;
      left = [];
      reads = read-whole msg n buf left [] h there;
      goes_on = on;
      chunked = k;
      fewer = omega arith;
    }
    | inr (part, short) ↦ absurd (not_all _ _ (frames msgs) buf e short)
  ]
  read-Next msg msgs (suc n) buf ([] ∷ chunks) h k e f = absurd (omega (arith, k.0))
  read-Next msg msgs (suc n) buf ((x ∷ xs) ∷ chunks) h k e f =
      let later =
        read-Next msg msgs n (buf ++ x ∷ xs) chunks h k.1
          (append_assoc buf (x ∷ xs) (concat chunks) ∙ e) (omega arith) in
      elim (whole_or_part _ _ (frames msgs) buf (concat ((x ∷ xs) ∷ chunks)) h.1 e) [
        | inl (left, there, on) ↦ record {
          rest = left;
          left = (x ∷ xs) ∷ chunks;
          reads = read-whole msg n buf left ((x ∷ xs) ∷ chunks) h there;
          goes_on = on;
          chunked = k;
          fewer = omega arith;
        }
        | inr (part, short) ↦ Next-weaken (x ∷ xs) (read-part n buf x xs chunks part) later
      ]

  module _ {S : Type 0} (h : Handler S) where
    run-decoded :
        (fuel n : ℕ) (s : S) (buf rest : List ℕ) (chunks : List (List ℕ)) (msg : ClientMessage)
        → try_decode_message b buf ≡ decoded msg rest
        → run b last h fuel (suc n) s buf chunks
          ≡ answered msg
              (h.handle_message s msg).1
              (run b last h fuel n (h.handle_message s msg).0 rest chunks)
    unfolding run
    run-decoded fuel n s buf rest chunks msg e = rw (e, run) refl

    run-read :
        (fuel n : ℕ) (s : S) (buf rest : List ℕ) (chunks left : List (List ℕ)) (msg : ClientMessage)
        → h.is_streaming s ≡ false
        → h.shut_down buf chunks ≡ false
        → try_decode_message b buf ≡ nothing buf
        → read_message_with b last fuel buf chunks ≡ message msg rest left
        → run b last h fuel (suc n) s buf chunks
          ≡ answered msg
              (h.handle_message s msg).1
              (run b last h fuel n (h.handle_message s msg).0 rest left)
    unfolding run
    run-read fuel n s buf rest chunks left msg q d e r =
        rw (e, run) (rw (q, run) (rw (d, run) (rw (r, run) refl)))

    run-end :
        (fuel n : ℕ) (s : S)
        → h.is_streaming s ≡ false
        → h.shut_down [] [] ≡ false
        → run b last h (suc fuel) (suc n) s [] [] ≡ ([], last_end last)
    unfolding run try_decode_message read_message_with cut read_past
    run-end fuel n s q d = elim (last_cases last) [
      | inl e ↦
          (let r : read_message_with b last (suc fuel) [] [] ≡ closed = ap read_past e in
            rw (q, run) (rw (d, run) (rw (r, run) (rw e refl))))
      | inr e ↦
          (let r : read_message_with b last (suc fuel) [] [] ≡ failed = ap read_past e in
            rw (q, run) (rw (d, run) (rw (r, run) (rw e refl))))
    ]

    -- Messages behind one that ends the session are not looked at.
    answered-same :
        (msg : ClientMessage) (r : Handled) (P : Type 0) (l m : List ClientMessage × End)
        → Behind r P
        → (P → l ≡ m)
        → answered msg r l ≡ answered msg r m
    unfolding answered
    answered-same msg goes_on P l m q f = ap (answered msg goes_on) (f q)
    answered-same msg finishes P l m q f = refl
    answered-same msg breaks P l m q f = refl

    module _
        (never : (buf : List ℕ) (chunks : List (List ℕ)) → h.shut_down buf chunks ≡ false) where
      run-frames :
          (fuel n : ℕ) (s : S) (msgs : List ClientMessage) (buf : List ℕ) (chunks : List (List ℕ))
          → All (IsSendable b) msgs
          → IsQuiet h s msgs
          → All IsChunk chunks
          → buf ++ concat chunks ≡ frames msgs
          → length msgs < n
          → length chunks < fuel
          → run b last h fuel n s buf chunks ≡ handled_all h last s msgs
      run-frames fuel zero s msgs buf chunks a q k e f g = absurd (omega arith)
      run-frames zero (suc n) s msgs buf chunks a q k e f g = absurd (omega arith)
      run-frames (suc fuel) (suc n) s [] buf chunks a q k e f g =
          let (no_bytes, no_chunks) = nothing_left buf chunks k e in
          rw (no_bytes, no_chunks) (run-end fuel n s q (never [] []))
      run-frames (suc fuel) (suc n) s (msg ∷ msgs) buf chunks a q k e f g =
          let r = h.handle_message s msg in
          elim (whole_or_part _ _ (frames msgs) buf (concat chunks) a.0.1 e) [
            | inl (rest, there, on) ↦
                run-decoded (suc fuel) n s buf rest chunks msg (try-whole msg buf rest a.0 there)
                ∙ answered-same msg r.1 (IsQuiet h r.0 msgs) _ _ q.1
                    (λ q'. run-frames (suc fuel) n r.0 msgs rest chunks a.1 q' k on (omega arith) g)
            | inr (part, short) ↦
                let next = read-Next msg msgs (suc fuel) buf chunks a.0 k e g in
                run-read (suc fuel) n s buf next.rest chunks next.left msg q.0 (never buf chunks)
                  (try-part buf part) next.reads
                ∙ answered-same msg r.1 (IsQuiet h r.0 msgs) _ _ q.1 (λ q'.
                  run-frames (suc fuel) n r.0 msgs next.rest next.left a.1 q' next.chunked
                    next.goes_on (omega arith) (omega (arith, next.fewer)))
          ]

      -- A client encodes messages that the wire format carries and sends the frames one behind the other.
      -- The network cuts these bytes into chunks in any way, none of them empty, and ends with the end of
      -- the connection or the error of a read. No shutdown is requested, and the session does not stream
      -- while it handles the messages. It then hands exactly these messages to its handler, in order, up
      -- to and with the first one for which the handler fails or ends the session; when there is none,
      -- it ends with the disconnect or with the error. Each wait for a message takes at most a round for
      -- each chunk.
      pub run-encode_all :
          (s : S) (msgs : List ClientMessage) (bytes : List ℕ) (chunks : List (List ℕ)) (fuel n : ℕ)
          → All (IsSendable b) msgs
          → IsQuiet h s msgs
          → encode_all b msgs ≡ ok bytes
          → All IsChunk chunks
          → concat chunks ≡ bytes
          → length msgs < n
          → length chunks < fuel
          → run b last h fuel n s [] chunks ≡ handled_all h last s msgs
      run-encode_all s msgs bytes chunks fuel n a q e k cut_up f g =
          let same : frames msgs ≡ bytes = cc (encode_all-frames msgs a) in
          run-frames fuel n s msgs [] chunks a q k (cut_up ∙ sym same) f g
