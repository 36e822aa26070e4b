-- ===== src/Protocol/Cut.antt =====
-- One step of a receiver, as the server's and the client's loops both write it out: the first frame
-- of a buffer, once all of it is there.
pub mod Frames
pub mod Stream
pub mod Progress
use recisdb_proxy_rs.Base.{
  ℕ, ◌+◌, Option, none, some, List, length, take, drop, ltb, if◌then◌else◌, ok, err, panicked,
}
use recisdb_proxy_rs.Protocol.Error.{ProtocolError, Result}
use recisdb_proxy_rs.Protocol.MessageType.{MessageType}
use recisdb_proxy_rs.Protocol.Frame.{FrameHeader, header_size, decode_header}

pub data Cut : Type 0 where
  -- More bytes are needed.
  waiting : Cut
  -- The type, the payload, and what is left in the buffer.
  frame : MessageType → List ℕ → List ℕ → Cut
  refused : ProtocolError → Cut
  faulted : Cut

-- The two calls of `split_to`, behind the test of the length.
unfoldable pub cut_at : FrameHeader → List ℕ → Cut
cut_at header buf =
    if ltb (length buf) (header_size + header.payload_len)
    then waiting
    else frame header.message_type (take header.payload_len (drop header_size buf))
        (drop header.payload_len (drop header_size buf))

unfoldable pub cut_result : Result (Option FrameHeader) → List ℕ → Cut
unfolding cut_at
cut_result (ok none) buf = waiting
cut_result (ok (some header)) buf = cut_at header buf
cut_result (err e) buf = refused e
cut_result panicked buf = faulted

unfoldable pub cut : List ℕ → Cut
unfolding cut_result
cut buf = if ltb (length buf) header_size then waiting else cut_result (decode_header buf) buf
