-- ===== src/Protocol/Tests.antt =====
-- Runs of the codec over a buffer that does what the crate `bytes` documents.
use recisdb_proxy_rs.Base.{
  ℕ, ◌≡◌, ◌≢◌, ◌↔◌, refl, some, List, [], ◌∷◌, ◌++◌, length, arith, ok, panicked,
}
use recisdb_proxy_rs.Protocol.MessageType
use recisdb_proxy_rs.Protocol.MessageType.{to_u16, try_from}
use recisdb_proxy_rs.Protocol.Messages
use recisdb_proxy_rs.Protocol.Messages.{client_message_type, server_message_type}
use recisdb_proxy_rs.Protocol.Utf8.{is_utf8}
use recisdb_proxy_rs.Protocol.Plain.{plain, plain-IsBuf}
use recisdb_proxy_rs.Protocol.Encode.{◌▹◌, len_u16, encode_sid, client_payload, server_payload}
use recisdb_proxy_rs.Protocol.Decode.{decode_client_message, decode_server_message}
use recisdb_proxy_rs.Protocol.Frame.{decode_header, encode_client_message, encode_server_message}
use recisdb_proxy_rs.Protocol.PanicFree.{
  decode_client_message-ne-panicked, IsOversized, decode_server_message-panics,
}
use recisdb_proxy_rs.Protocol.TypeCodes.{try_from-iff-to_u16}
use recisdb_proxy_rs.Protocol.Roundtrip.Frames.{
  payload_in, client_message-roundtrip, server_message-roundtrip,
}

abbrev select : Messages.ClientMessage
select = Messages.select_logical_channel 0x7FE8 32736 (some 1024)

select_payload : client_payload plain select [] ≡ 0xE8 ∷ 0x7F ∷ 0xE0 ∷ 0x7F ∷ 1 ∷ 0x00 ∷ 0x04 ∷ []
unfolding client_payload encode_sid ◌▹◌
select_payload = refl

client_message-roundtrip_example :
    (frame : List ℕ) × (encode_client_message plain select ≡ ok frame)
    × (decode_header (frame ++ 0x42 ∷ [])
        ≡ ok (
            some (record {
              payload_len = length (client_payload plain select []);
              message_type = client_message_type select;
            })))
    × (decode_client_message plain
          (client_message_type select)
          (payload_in (length (client_payload plain select [])) (frame ++ 0x42 ∷ []))
        ≡ ok select)
client_message-roundtrip_example =
    client_message-roundtrip plain plain-IsBuf select (0x42 ∷ [])
      (omega arith, omega arith, omega arith) (rw select_payload (omega arith))

abbrev opened : Messages.ServerMessage
opened = Messages.error 0x0102 (0xE3 ∷ 0x81 ∷ 0x82 ∷ b'!' ∷ [])

opened_payload :
    server_payload plain opened [] ≡ 0x02 ∷ 0x01 ∷ 4 ∷ 0 ∷ 0xE3 ∷ 0x81 ∷ 0x82 ∷ b'!' ∷ []
unfolding server_payload ◌▹◌ len_u16
opened_payload = refl

server_message-roundtrip_example :
    (frame : List ℕ) × (encode_server_message plain opened ≡ ok frame)
    × (decode_header (frame ++ [])
        ≡ ok (
            some (record {
              payload_len = length (server_payload plain opened []);
              message_type = server_message_type opened;
            })))
    × (decode_server_message plain
          (server_message_type opened)
          (payload_in (length (server_payload plain opened [])) (frame ++ []))
        ≡ ok opened)
unfolding is_utf8
server_message-roundtrip_example =
    server_message-roundtrip plain plain-IsBuf opened [] (omega arith, (refl, omega arith))
      (rw opened_payload (omega arith))

decode_client_message-ne-panicked_example :
    decode_client_message plain MessageType.set_channel (1 ∷ 2 ∷ []) ≢ panicked
decode_client_message-ne-panicked_example =
    decode_client_message-ne-panicked plain plain-IsBuf MessageType.set_channel (1 ∷ 2 ∷ [])

-- A list of 2 ^ 32 - 1 channels.
abbrev huge_list : List ℕ
huge_list = 0 ∷ 0 ∷ 0 ∷ 0 ∷ 0 ∷ 0 ∷ 0 ∷ 0 ∷ 255 ∷ 255 ∷ 255 ∷ 255 ∷ []

decode_server_message-panics_example :
    (decode_server_message plain MessageType.get_channel_list_ack huge_list ≡ panicked)
    ↔ IsOversized plain MessageType.get_channel_list_ack huge_list
decode_server_message-panics_example =
    decode_server_message-panics plain plain-IsBuf MessageType.get_channel_list_ack huge_list

try_from-iff-to_u16_example :
    (try_from 0x0304 ≡ some MessageType.ts_data) ↔ (to_u16 MessageType.ts_data ≡ 0x0304)
try_from-iff-to_u16_example = try_from-iff-to_u16 0x0304 MessageType.ts_data
