-- ===== src/Client/Tests.antt =====
-- A client that gets two pieces of the stream around an answer, cut in the middle of a frame.
use recisdb_proxy_rs.Base.{ℕ, ◌≤◌, ◌≡◌, refl, true, List, [], ◌∷◌, All, length, arith, ok}
use recisdb_proxy_rs.Protocol.MessageType.{to_u16}
use recisdb_proxy_rs.Protocol.Messages
use recisdb_proxy_rs.Protocol.Messages.{ServerMessage, server_message_type}
use recisdb_proxy_rs.Protocol.Plain.{plain, plain-IsBuf}
use recisdb_proxy_rs.Protocol.Encode.{◌▹◌, put_bool, flag, server_payload}
use recisdb_proxy_rs.Protocol.Frame.{encode_frame, encode_server_message, max_frame_size}
use recisdb_proxy_rs.Client.RingBuffer
use recisdb_proxy_rs.Client.RingBuffer.{write}
use recisdb_proxy_rs.Client.Receive.{Received, closed, connection_loop, store_ts, respond}
use recisdb_proxy_rs.Client.Delivery.{encode_all, IsSendable, connection_loop-encode_all}

abbrev stream : List ServerMessage
stream =
    Messages.ts_data (0x47 ∷ 1 ∷ [])
    ∷ Messages.purge_stream_ack true
    ∷ Messages.ts_data (2 ∷ [])
    ∷ []

abbrev stream_bytes : List ℕ
stream_bytes =
    b'B' ∷ b'N' ∷ b'D' ∷ b'P' ∷ 2 ∷ 0 ∷ 0 ∷ 0 ∷ 0x04 ∷ 0x03 ∷ 0x47 ∷ 1 ∷ b'B' ∷ b'N' ∷ b'D' ∷ b'P'
    ∷ 1 ∷ 0 ∷ 0 ∷ 0 ∷ 0x07 ∷ 0x03 ∷ 1 ∷ b'B' ∷ b'N' ∷ b'D' ∷ b'P' ∷ 1 ∷ 0 ∷ 0 ∷ 0 ∷ 0x04 ∷ 0x03 ∷ 2
    ∷ []

stream_encoded : encode_all plain stream ≡ ok stream_bytes
unfolding encode_server_message encode_frame server_payload server_message_type to_u16 put_bool flag
    ◌▹◌
stream_encoded = refl

stream_small : All (λ msg. length (server_payload plain msg []) ≤ max_frame_size) stream
unfolding server_payload put_bool flag ◌▹◌
stream_small = (omega arith, (omega arith, (omega arith, tt)))

stream-IsSendable : All (IsSendable plain) stream
stream-IsSendable = ((tt, stream_small.0), ((tt, stream_small.1.0), ((tt, stream_small.1.1.0), tt)))

abbrev start : Received
start = record { buffer = RingBuffer.new; responses = [] }

abbrev halves : List (List ℕ)
halves =
    (b'B' ∷ b'N' ∷ b'D' ∷ b'P' ∷ 2 ∷ 0 ∷ 0 ∷ 0 ∷ 0x04 ∷ 0x03 ∷ 0x47 ∷ 1 ∷ b'B' ∷ b'N' ∷ b'D' ∷ b'P'
      ∷ 1 ∷ 0 ∷ [])
    ∷ (0 ∷ 0 ∷ 0x07 ∷ 0x03 ∷ 1 ∷ b'B' ∷ b'N' ∷ b'D' ∷ b'P' ∷ 1 ∷ 0 ∷ 0 ∷ 0 ∷ 0x04 ∷ 0x03 ∷ 2 ∷ [])
    ∷ []

connection_loop-encode_all_example :
    connection_loop plain 188 4 halves [] start
    ≡ closed (
        store_ts 188
          (2 ∷ [])
          (respond (Messages.purge_stream_ack true) (store_ts 188 (0x47 ∷ 1 ∷ []) start)))
connection_loop-encode_all_example =
    connection_loop-encode_all plain plain-IsBuf 188 stream stream_bytes halves 4 start
      stream-IsSendable stream_encoded (omega arith) refl (omega arith)
