-- ===== src/Protocol/Frame.antt =====
-- recisdb-protocol/src/codec.rs: frames. The header is read with the standard library's slices and
-- `from_le_bytes`, so it is modelled without the crate `bytes`.
use recisdb_proxy_rs.Base.{
  ℕ, ◌%◌, ◌*◌, Option, none, some, List, [], ◌∷◌, length, take, drop, ltb, ◌==◌, if◌then◌else◌,
  Bool, true, false, ◌&&◌, ok, err,
}
use recisdb_proxy_rs.Base.Bytes.{le_value}
use recisdb_proxy_rs.Protocol.Error.{Result, invalid_magic, frame_too_large, unknown_message_type}
use recisdb_proxy_rs.Protocol.MessageType.{MessageType, to_u16, try_from}
use recisdb_proxy_rs.Protocol.Messages.{
  ClientMessage, ServerMessage, client_message_type, server_message_type,
}
use recisdb_proxy_rs.Protocol.Buf.{Buf}
use recisdb_proxy_rs.Protocol.Encode.{◌▹◌, client_payload, server_payload}

abbrev pub magic : List ℕ
magic = b'B' ∷ b'N' ∷ b'D' ∷ b'P' ∷ []

abbrev pub max_frame_size : ℕ
max_frame_size = 16 * 1024 * 1024

abbrev pub header_size : ℕ
header_size = 10

pub record FrameHeader : Type 0 where
  pub payload_len : ℕ
  pub message_type : MessageType

unfoldable pub bytes_eq : List ℕ → List ℕ → Bool
bytes_eq [] [] = true
bytes_eq (x ∷ xs) (y ∷ ys) = (x == y) && bytes_eq xs ys
bytes_eq _ _ = false

unfoldable pub header_of : ℕ → Option MessageType → ℕ → Result (Option FrameHeader)
header_of payload_len (some t) type_val =
    ok (some (record { payload_len = payload_len; message_type = t }))
header_of payload_len none type_val = err (unknown_message_type type_val)

unfoldable pub decode_header : List ℕ → Result (Option FrameHeader)
unfolding header_of bytes_eq
decode_header buf =
    if ltb (length buf) header_size
    then ok none
    else if bytes_eq (take 4 buf) magic
    then (if ltb max_frame_size payload_len
        then err (frame_too_large payload_len max_frame_size)
        else header_of payload_len (try_from type_val) type_val)
    else err (invalid_magic (take 4 buf))
  where
    payload_len : ℕ
    payload_len = le_value (take 4 (drop 4 buf))

    type_val : ℕ
    type_val = le_value (take 2 (drop 8 buf))

module _ (b : Buf) where
  open b use {put_u16_le, put_u32_le, put_slice}

  unfoldable pub encode_frame : MessageType → List ℕ → Result (List ℕ)
  encode_frame msg_type payload =
      if ltb max_frame_size payload_len
      then err (frame_too_large payload_len max_frame_size)
      else ok (
          (put_slice magic
              ▹ put_u32_le payload_len
              ▹ put_u16_le (to_u16 msg_type)
              ▹ put_slice payload)
            [])
    where
      -- `payload.len() as u32`.
      payload_len : ℕ
      payload_len = length payload % 4294967296

  unfoldable pub encode_client_message : ClientMessage → Result (List ℕ)
  encode_client_message msg = encode_frame (client_message_type msg) (client_payload b msg [])

  unfoldable pub encode_server_message : ServerMessage → Result (List ℕ)
  encode_server_message msg = encode_frame (server_message_type msg) (server_payload b msg [])
