-- ===== src/Client/Delivery.antt =====
-- What a server sends reaches the client whole and in order: the transport stream in the ring buffer,
-- everything else as responses.
use recisdb_proxy_rs.Base.{
  ℕ, zero, suc, ◌≤◌, ◌<◌, ◌≡◌, ◌≢◌, refl, sym, ap, ◌∙◌, false, List, [], ◌∷◌, ◌++◌, append_assoc,
  concat, length, All, ok, and_then, arith, inl, inr,
}
use recisdb_proxy_rs.Protocol.Error.{Result}
use recisdb_proxy_rs.Protocol.MessageType.{MessageType}
use recisdb_proxy_rs.Protocol.Messages.{ServerMessage, server_message_type}
use recisdb_proxy_rs.Protocol.Messages
use recisdb_proxy_rs.Protocol.Buf.{Buf, IsBuf}
use recisdb_proxy_rs.Protocol.Encode.{server_payload}
use recisdb_proxy_rs.Protocol.Decode.{decode_server_message}
use recisdb_proxy_rs.Protocol.Frame.{encode_server_message, max_frame_size}
use recisdb_proxy_rs.Protocol.InRange.{ServerInRange}
use recisdb_proxy_rs.Protocol.Roundtrip.Server.{decode_server_message-payload}
use recisdb_proxy_rs.Protocol.Roundtrip.Frames.{frame_bytes, encode_frame-layout}
use recisdb_proxy_rs.Protocol.Cut.{waiting, frame, cut}
use recisdb_proxy_rs.Protocol.Cut.Stream.{IsChunk, whole_or_part, not_all}
use recisdb_proxy_rs.Client.Receive.{
  Received, Pass, kept, closed, is_ts_data, store_ts, respond, drain, connection_loop,
}

abbrev pub encode_all : Buf → List ServerMessage → Result (List ℕ)
encode_all b [] = ok []
encode_all b (msg ∷ msgs) =
    and_then (encode_server_message b msg)
      λ bytes. and_then (encode_all b msgs) λ later. ok (bytes ++ later)

-- A message that the wire format carries, in a frame of at most 16 MiB.
abbrev pub IsSendable : Buf → ServerMessage → Type 0
IsSendable b msg = ServerInRange msg × (length (server_payload b msg []) ≤ max_frame_size)

-- What one message means to the client.
abbrev pub effect : ℕ → ServerMessage → Received → Received
effect size (Messages.ts_data bytes) r = store_ts size bytes r
effect size msg r = respond msg r

abbrev pub effects : ℕ → List ServerMessage → Received → Received
effects size [] r = r
effects size (msg ∷ msgs) r = effects size msgs (effect size msg r)

effects-append :
    (size : ℕ) (done later : List ServerMessage) (r : Received)
    → effects size (done ++ later) r ≡ effects size later (effects size done r)
effects-append size [] later r = refl
effects-append size (msg ∷ done) later r = effects-append size done later (effect size msg r)

waiting-ne-frame : {t : MessageType} {payload left : List ℕ} → waiting ≢ frame t payload left
waiting-ne-frame e = cc

module _ (b : Buf) (laws : IsBuf b) (size : ℕ) where
  abbrev frames : List ServerMessage → List ℕ
  frames [] = []
  frames (msg ∷ msgs) =
      frame_bytes (server_message_type msg) (server_payload b msg []) ++ frames msgs

  encode_all-frames :
      (msgs : List ServerMessage) → All (IsSendable b) msgs → encode_all b msgs ≡ ok (frames msgs)
  unfolding encode_server_message
  encode_all-frames [] h = refl
  encode_all-frames (msg ∷ msgs) h =
      rw (encode_frame-layout b laws (server_message_type msg) (server_payload b msg []) h.0.1)
        (rw (encode_all-frames msgs h.1) refl)

  drain-ts :
      (n : ℕ) (buf payload left : List ℕ) (r : Received)
      → cut buf ≡ frame MessageType.ts_data payload left
      → drain b size (suc n) buf r ≡ drain b size n left (store_ts size payload r)
  unfolding drain is_ts_data
  drain-ts n buf payload left r e = rw (e, drain) refl

  drain-response :
      (n : ℕ) (buf payload left : List ℕ) (t : MessageType) (msg : ServerMessage) (r : Received)
      → cut buf ≡ frame t payload left
      → is_ts_data t ≡ false
      → decode_server_message b t payload ≡ ok msg
      → drain b size (suc n) buf r ≡ drain b size n left (respond msg r)
  unfolding drain
  drain-response n buf payload left t msg r e other d =
      rw (e, drain) (rw (other, drain) (rw (d, drain) refl))

  drain-effect :
      (msg : ServerMessage) (n : ℕ) (buf left : List ℕ) (r : Received)
      → IsSendable b msg
      → cut buf ≡ frame (server_message_type msg) (server_payload b msg []) left
      → drain b size (suc n) buf r ≡ drain b size n left (effect size msg r)
  unfolding server_message_type server_payload is_ts_data
  drain-effect (Messages.ts_data bytes) n buf left r h e =
      drain-ts n buf bytes left r
        (e ∙ ap (λ p. frame MessageType.ts_data p left) (laws.put_slice_append bytes []))
  drain-effect Messages.pong n buf left r h e =
      drain-response n buf _ left _ Messages.pong r e refl
        (decode_server_message-payload b laws Messages.pong h.0 h.1)
  drain-effect msg n buf left r h e =
      drain-response n buf _ left _ msg r e refl (decode_server_message-payload b laws msg h.0 h.1)

  drain-part :
      (n : ℕ) (buf : List ℕ) (r : Received)
      → cut buf ≡ waiting
      → drain b size (suc n) buf r ≡ kept buf r
  unfolding drain
  drain-part n buf r e = rw (e, drain) refl

  cut_nothing : cut [] ≡ waiting
  unfolding cut
  cut_nothing = refl

  buf_empty : (buf more : List ℕ) → buf ++ more ≡ [] → buf ≡ []
  buf_empty [] more e = refl
  buf_empty (x ∷ xs) more e = absurd (omega (arith, ap length e))

  -- How far a pass gets: some messages are done, and a stream goes on behind them.
  record Progress (msgs : List ServerMessage) (more : List ℕ) (r : Received) (p : Pass)
      : Type 0 where
    done : List ServerMessage
    later : List ServerMessage
    rest : List ℕ
    passes : p ≡ kept rest (effects size done r)
    split : msgs ≡ done ++ later
    goes_on : rest ++ more ≡ frames later
    waits : cut rest ≡ waiting
    sendable : All (IsSendable b) later
    fewer : length later ≤ length msgs

  one_more :
      {msgs : List ServerMessage} {more : List ℕ} {r : Received} {p q : Pass} (msg : ServerMessage)
      → q ≡ p
      → Progress msgs more (effect size msg r) p
      → Progress (msg ∷ msgs) more r q
  one_more msg e x = record {
    done = msg ∷ x.done;
    later = x.later;
    rest = x.rest;
    passes = e ∙ x.passes;
    split = ap (λ l. msg ∷ l) x.split;
    goes_on = x.goes_on;
    waits = x.waits;
    sendable = x.sendable;
    fewer = omega (arith, x.fewer);
  }

  stay :
      (msgs : List ServerMessage) (buf more : List ℕ) (r : Received) (p : Pass)
      → All (IsSendable b) msgs
      → buf ++ more ≡ frames msgs
      → cut buf ≡ waiting
      → p ≡ kept buf r
      → Progress msgs more r p
  stay msgs buf more r p h e w k = record {
    done = [];
    later = msgs;
    rest = buf;
    passes = k;
    split = refl;
    goes_on = e;
    waits = w;
    sendable = h;
    fewer = omega arith;
  }

  drain-Progress :
      (n : ℕ) (msgs : List ServerMessage) (buf more : List ℕ) (r : Received)
      → All (IsSendable b) msgs
      → buf ++ more ≡ frames msgs
      → length msgs < n
      → Progress msgs more r (drain b size n buf r)
  drain-Progress zero msgs buf more r h e f = absurd (omega arith)
  drain-Progress (suc n) [] buf more r h e f =
      let idle : cut buf ≡ waiting = rw (buf_empty buf more e) cut_nothing in
      stay [] buf more r _ h e idle (drain-part n buf r idle)
  drain-Progress (suc n) (msg ∷ msgs) buf more r h e f =
      elim (whole_or_part _ _ (frames msgs) buf more h.0.1 e) [
        | inl (left, there, on) ↦
            one_more msg (drain-effect msg n buf left r h.0 there)
              (drain-Progress n msgs left more (effect size msg r) h.1 on (omega arith))
        | inr (part, short) ↦ stay (msg ∷ msgs) buf more r _ h e part (drain-part n buf r part)
      ]

  connection_loop-kept :
      (n x : ℕ) (xs : List ℕ) (chunks : List (List ℕ)) (buf rest : List ℕ) (r r' : Received)
      → drain b size n (buf ++ x ∷ xs) r ≡ kept rest r'
      → connection_loop b size n ((x ∷ xs) ∷ chunks) buf r ≡ connection_loop b size n chunks rest r'
  unfolding connection_loop
  connection_loop-kept n x xs chunks buf rest r r' e = rw (e, connection_loop) refl

  -- The stream cannot end while the buffer waits for the rest of a frame.
  finished :
      (msgs : List ServerMessage) (buf : List ℕ)
      → All (IsSendable b) msgs
      → buf ++ [] ≡ frames msgs
      → cut buf ≡ waiting
      → msgs ≡ []
  finished [] buf h e w = refl
  finished (msg ∷ msgs) buf h e w = elim (whole_or_part _ _ (frames msgs) buf [] h.0.1 e) [
    | inl (left, there, on) ↦ absurd (waiting-ne-frame (sym w ∙ there))
    | inr (part, short) ↦ absurd (not_all _ _ (frames msgs) buf e short)
  ]

  loop-effects :
      (n : ℕ) (msgs : List ServerMessage) (chunks : List (List ℕ)) (buf : List ℕ) (r : Received)
      → All (IsSendable b) msgs
      → All IsChunk chunks
      → buf ++ concat chunks ≡ frames msgs
      → length msgs < n
      → cut buf ≡ waiting
      → connection_loop b size n chunks buf r ≡ closed (effects size msgs r)
  unfolding connection_loop
  loop-effects n msgs [] buf r h k e f w = rw (finished msgs buf h e w) refl
  loop-effects n msgs ([] ∷ chunks) buf r h k e f w = absurd (omega (arith, k.0))
  loop-effects n msgs ((x ∷ xs) ∷ chunks) buf r h k e f w =
      let pass =
        drain-Progress n msgs (buf ++ x ∷ xs) (concat chunks) r h
          (append_assoc buf (x ∷ xs) (concat chunks) ∙ e) f in
      connection_loop-kept n x xs chunks buf pass.rest r (effects size pass.done r) pass.passes
      ∙ loop-effects n pass.later chunks pass.rest (effects size pass.done r) pass.sendable k.1
          pass.goes_on (omega (arith, pass.fewer)) pass.waits
      ∙ ap closed (
          sym (effects-append size pass.done pass.later r)
          ∙ ap (λ l. effects size l r) (sym pass.split))

  -- A server encodes messages that the wire format carries and sends the frames one behind the
  -- other; the network cuts the bytes into chunks in any way, none of them empty. The client's loop
  -- then ends with the closed connection: it has written the bytes of each piece of the transport
  -- stream to the ring buffer, in order, and sent every other message on as a response, in order.
  pub connection_loop-encode_all :
      (msgs : List ServerMessage) (bytes : List ℕ) (chunks : List (List ℕ)) (n : ℕ) (r : Received)
      → All (IsSendable b) msgs
      → encode_all b msgs ≡ ok bytes
      → All IsChunk chunks
      → concat chunks ≡ bytes
      → length msgs < n
      → connection_loop b size n chunks [] r ≡ closed (effects size msgs r)
  connection_loop-encode_all msgs bytes chunks n r h e k cut_up f =
      let same : frames msgs ≡ bytes = cc (encode_all-frames msgs h) in
      loop-effects n msgs chunks [] r h k (cut_up ∙ sym same) f cut_nothing
