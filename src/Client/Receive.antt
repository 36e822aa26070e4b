-- ===== src/Client/Receive.antt =====
-- bondriver-proxy-client/src/client/connection.rs: the reader of `connection_loop`. The socket is the
-- list of what its reads return, as in the server's session. Counters and log lines are left out.
use recisdb_proxy_rs.Base.{ℕ, zero, suc, Bool, true, false, List, [], ◌∷◌, ◌++◌, ok, err, panicked}
use recisdb_proxy_rs.Protocol.Error.{ProtocolError}
use recisdb_proxy_rs.Protocol.MessageType.{MessageType}
use recisdb_proxy_rs.Protocol.Messages.{ServerMessage}
use recisdb_proxy_rs.Protocol.Buf.{Buf}
use recisdb_proxy_rs.Protocol.Decode.{decode_server_message}
use recisdb_proxy_rs.Protocol.Cut.{waiting, frame, refused, faulted, cut}
use recisdb_proxy_rs.Client.RingBuffer.{TsRingBuffer, write}

-- What the loop has done: the bytes in the ring buffer, and the responses sent to the caller.
pub record Received : Type 0 where
  pub buffer : TsRingBuffer
  pub responses : List ServerMessage

-- How one pass over the buffer, or the whole loop, ends.
pub data Pass : Type 0 where
  -- More bytes are needed, with the bytes that are kept.
  kept : List ℕ → Received → Pass
  -- The server closed the connection.
  closed : Received → Pass
  -- The loop returns an error.
  failed : ProtocolError → Received → Pass
  crashed : Received → Pass
  exhausted : Received → Pass

unfoldable pub is_ts_data : MessageType → Bool
is_ts_data MessageType.ts_data = true
is_ts_data _ = false

-- The two arms behind the header: the ring buffer's, and the one with a decoder.
unfoldable pub store_ts : ℕ → List ℕ → Received → Received
store_ts size payload r = record r { buffer = (write size payload r.buffer).0 }

unfoldable pub respond : ServerMessage → Received → Received
respond msg r = record r { responses = r.responses ++ msg ∷ [] }

module _ (b : Buf) (size : ℕ) where
  -- The inner loop: all complete frames in the buffer.
  unfoldable pub drain : ℕ → List ℕ → Received → Pass
  drain zero buf r = exhausted r
  drain (suc n) buf r = elim (cut buf) [
    | waiting ↦ kept buf r
    | frame t payload rest ↦ (elim (is_ts_data t) [
      | true ↦ drain n rest (store_ts size payload r)
      | false ↦ (elim (decode_server_message b t payload) [
        | ok msg ↦ drain n rest (respond msg r)
        | err e ↦ failed e r
        | panicked ↦ crashed r
      ])
    ])
    | refused e ↦ failed e r
    | faulted ↦ crashed r
  ]

  -- The outer loop, a round for each read of the socket; `n` bounds the frames of a pass.
  unfoldable pub connection_loop : ℕ → List (List ℕ) → List ℕ → Received → Pass
  connection_loop n [] buf r = closed r
  connection_loop n ([] ∷ chunks) buf r = closed r
  connection_loop n ((x ∷ xs) ∷ chunks) buf r = elim (drain n (buf ++ x ∷ xs) r) [
    | kept rest r' ↦ connection_loop n chunks rest r'
    | closed r' ↦ closed r'
    | failed e r' ↦ failed e r'
    | crashed r' ↦ crashed r'
    | exhausted r' ↦ exhausted r'
  ]
