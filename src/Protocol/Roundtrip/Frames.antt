-- ===== src/Protocol/Roundtrip/Frames.antt =====
-- A whole message on the wire: the frame that is sent is found again at the start of a byte stream.
use native.Mathlib.Nat.{mod-eq_of_lt}
use recisdb_proxy_rs.Base.{
  ℕ, ◌≤◌, ◌<◌, ◌≡◌, refl, some, List, [], ◌∷◌, ◌++◌, length, take-append, take, drop, ltb,
  ltb_of_le, arith, ok, false, ap, ◌∙◌,
}
use recisdb_proxy_rs.Base.Bytes.{le_bytes, le_value, le_value-le_bytes}
use recisdb_proxy_rs.Protocol.MessageType.{MessageType, to_u16, try_from}
use recisdb_proxy_rs.Protocol.TypeCodes.{try_from-to_u16, to_u16-lt}
use recisdb_proxy_rs.Protocol.Messages.{
  ClientMessage, ServerMessage, client_message_type, server_message_type,
}
use recisdb_proxy_rs.Protocol.Buf.{Buf, IsBuf}
use recisdb_proxy_rs.Protocol.Encode.{◌▹◌, client_payload, server_payload}
use recisdb_proxy_rs.Protocol.Decode.{decode_client_message, decode_server_message}
use recisdb_proxy_rs.Protocol.InRange.{InRange, ServerInRange}
use recisdb_proxy_rs.Protocol.Codes.{Codes-result}
use recisdb_proxy_rs.Protocol.Roundtrip.Client.{client-Codes}
use recisdb_proxy_rs.Protocol.Roundtrip.Server.{decode_server_message-payload}
use recisdb_proxy_rs.Protocol.Frame.{
  magic, max_frame_size, header_size, decode_header, encode_frame, encode_client_message,
  encode_server_message,
}

-- The layout that the head of codec.rs draws.
abbrev pub frame_bytes : MessageType → List ℕ → List ℕ
frame_bytes t payload = magic ++ (le_bytes 4 (length payload) ++ (le_bytes 2 (to_u16 t) ++ payload))

pub encode_frame-layout :
    (b : Buf) (laws : IsBuf b) (t : MessageType) (payload : List ℕ)
    → length payload ≤ max_frame_size
    → encode_frame b t payload ≡ ok (frame_bytes t payload)
unfolding encode_frame ◌▹◌
encode_frame-layout b laws t payload h =
    let fits : length payload < 4294967296 = omega (arith, h) in
    rw (mod-eq_of_lt fits) (
      rw (ltb_of_le max_frame_size (length payload) h) (
        rw (laws.put_slice_append magic []) (
          rw (laws.put_u32_le_le (length payload) magic) (
            rw (laws.put_u16_le_le (to_u16 t) (magic ++ le_bytes 4 (length payload)))
              (ap ok (laws.put_slice_append payload _))))))

-- The header of a buffer that starts with the magic bytes.
header_fields :
    (l₀ l₁ l₂ l₃ t₀ t₁ : ℕ) (rest : List ℕ) (t : MessageType)
    → le_value (l₀ ∷ l₁ ∷ l₂ ∷ l₃ ∷ []) ≤ max_frame_size
    → try_from (le_value (t₀ ∷ t₁ ∷ [])) ≡ some t
    → decode_header (magic ++ (l₀ ∷ l₁ ∷ l₂ ∷ l₃ ∷ t₀ ∷ t₁ ∷ rest))
      ≡ ok (some (record { payload_len = le_value (l₀ ∷ l₁ ∷ l₂ ∷ l₃ ∷ []); message_type = t }))
unfolding decode_header
header_fields l₀ l₁ l₂ l₃ t₀ t₁ rest t h e =
    let buf = magic ++ (l₀ ∷ l₁ ∷ l₂ ∷ l₃ ∷ t₀ ∷ t₁ ∷ rest) in
    let long : ltb (length buf) header_size ≡ false =
      ltb_of_le (length buf) header_size (omega arith) in
    rw long (
      rw (ltb_of_le max_frame_size (le_value (l₀ ∷ l₁ ∷ l₂ ∷ l₃ ∷ [])) h)
        (rw (e, decode_header) refl))

pub decode_header-frame :
    (t : MessageType) (payload rest : List ℕ)
    → length payload ≤ max_frame_size
    → decode_header (frame_bytes t payload ++ rest)
      ≡ ok (some (record { payload_len = length payload; message_type = t }))
decode_header-frame t payload rest h =
    let size = le_value-le_bytes 4 (length payload) (omega (arith, h)) in
    let code = le_value-le_bytes 2 (to_u16 t) (omega (arith, to_u16-lt t)) in
    header_fields _ _ _ _ _ _ (payload ++ rest) t (omega (arith, size, h))
      (ap try_from code ∙ try_from-to_u16 t)
    ∙ ap (λ n. ok (some (record { payload_len = n; message_type = t }))) size

-- The payload that a receiver cuts out of the stream by the header's length.
abbrev pub payload_in : ℕ → List ℕ → List ℕ
payload_in payload_len stream = take payload_len (drop header_size stream)

payload_in-frame :
    (t : MessageType) (payload rest : List ℕ)
    → payload_in (length payload) (frame_bytes t payload ++ rest) ≡ payload
payload_in-frame t payload rest = take-append payload rest

module _ (b : Buf) (laws : IsBuf b) where
  pub decode_client_message-payload :
      (msg : ClientMessage)
      → InRange msg
      → decode_client_message b (client_message_type msg) (client_payload b msg []) ≡ ok msg
  unfolding decode_client_message
  decode_client_message-payload msg h = Codes-result (client-Codes b laws msg h)

  -- Every client message whose fields are in range, except the two that name a group, is encoded to
  -- a frame if its payload is at most 16 MiB; and a receiver that has the frame, with any further
  -- bytes behind it, reads its header, cuts out its payload and decodes the same message.
  pub client_message-roundtrip :
      (msg : ClientMessage) (rest : List ℕ)
      → InRange msg
      → length (client_payload b msg []) ≤ max_frame_size
      → (frame : List ℕ) × (encode_client_message b msg ≡ ok frame)
        × (decode_header (frame ++ rest)
            ≡ ok (
                some (record {
                  payload_len = length (client_payload b msg []);
                  message_type = client_message_type msg;
                })))
        × (decode_client_message b
              (client_message_type msg)
              (payload_in (length (client_payload b msg [])) (frame ++ rest))
            ≡ ok msg)
  unfolding encode_client_message
  client_message-roundtrip msg rest h small =
      let payload = client_payload b msg [] in
      let t = client_message_type msg in
      (
        frame_bytes t payload,
        encode_frame-layout b laws t payload small,
        decode_header-frame t payload rest small,
        rw (payload_in-frame t payload rest) (decode_client_message-payload msg h),
      )

  -- Every server message whose fields are in range is encoded to a frame if its payload is at most
  -- 16 MiB; and a receiver that has the frame, with any further bytes behind it, reads its header,
  -- cuts out its payload and decodes the same message.
  pub server_message-roundtrip :
      (msg : ServerMessage) (rest : List ℕ)
      → ServerInRange msg
      → length (server_payload b msg []) ≤ max_frame_size
      → (frame : List ℕ) × (encode_server_message b msg ≡ ok frame)
        × (decode_header (frame ++ rest)
            ≡ ok (
                some (record {
                  payload_len = length (server_payload b msg []);
                  message_type = server_message_type msg;
                })))
        × (decode_server_message b
              (server_message_type msg)
              (payload_in (length (server_payload b msg [])) (frame ++ rest))
            ≡ ok msg)
  unfolding encode_server_message
  server_message-roundtrip msg rest h small =
      let payload = server_payload b msg [] in
      let t = server_message_type msg in
      (
        frame_bytes t payload,
        encode_frame-layout b laws t payload small,
        decode_header-frame t payload rest small,
        rw (payload_in-frame t payload rest) (decode_server_message-payload b laws msg h small),
      )
