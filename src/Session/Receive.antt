-- ===== src/Session/Receive.antt =====
-- recisdb-proxy/src/server/session.rs: how a session takes messages from its socket and hands them to
-- `handle_message`, up to the point where it would wait for the stream. The socket is the list of what its
-- reads return: chunks of bytes, an empty one at the end of the connection; past the list the
-- connection is at its end or a read fails.
use recisdb_proxy_rs.Base.{ℕ, zero, suc, Bool, true, false, List, [], ◌∷◌, ◌++◌, ok, err, panicked}
use recisdb_proxy_rs.Protocol.Error.{ProtocolError, Result}
use recisdb_proxy_rs.Protocol.Messages.{ClientMessage}
use recisdb_proxy_rs.Protocol.Buf.{Buf}
use recisdb_proxy_rs.Protocol.Decode.{decode_client_message}
use recisdb_proxy_rs.Protocol.Cut.{waiting, frame, refused, faulted, cut}

-- What a read returns past the chunks: no bytes, or an error.
pub data Last : Type 0 where
  at_end fails : Last

-- What `handle_message` returns: `Ok(true)`, `Ok(false)` or an error.
pub data Handled : Type 0 where
  goes_on finishes breaks : Handled

-- What a session does with a message, in a state of its own; whether it streams in that state; and
-- whether, when it waits with these bytes in its buffer and these chunks still to come, the request to
-- shut down is there first.
pub record Handler (S : Type 0) : Type 0 where
  pub handle_message : S → ClientMessage → S × Handled
  pub is_streaming : S → Bool
  pub shut_down : List ℕ → List (List ℕ) → Bool

-- Why the loop of `run` ends, or that the session streams and has no whole message in its buffer.
pub data End : Type 0 where
  client_disconnect remote_shutdown : End
  -- `handle_message` returned `Ok(false)`, or an error.
  handler_finished handler_failed : End
  -- `InvalidData`, with the protocol's error; the error of a read.
  invalid_data : ProtocolError → End
  read_failed : End
  streams : End
  panic : End
  out_of_fuel : End

-- What `read_message_with` returns, with the buffer and the socket that it leaves.
pub data Read : Type 0 where
  message : ClientMessage → List ℕ → List (List ℕ) → Read
  closed : Read
  failed : Read
  crashed : Read
  exhausted : Read

-- What `try_decode_message` returns, with the buffer that it leaves.
pub data Tried : Type 0 where
  decoded : ClientMessage → List ℕ → Tried
  nothing : List ℕ → Tried
  broken : ProtocolError → Tried
  thrown : Tried

unfoldable pub tried_payload : Result ClientMessage → List ℕ → Tried
tried_payload (ok msg) rest = decoded msg rest
tried_payload (err e) rest = nothing rest
tried_payload panicked rest = thrown

module _ (b : Buf) where
  -- A frame whose payload is refused is dropped: to the caller that looks like a part of a frame.
  unfoldable pub try_decode_message : List ℕ → Tried
  unfolding tried_payload
  try_decode_message buf = elim (cut buf) [
    | waiting ↦ nothing buf
    | frame t payload rest ↦ tried_payload (decode_client_message b t payload) rest
    | refused e ↦ broken e
    | faulted ↦ thrown
  ]

-- The messages that `run` handed to `handle_message`, and why its loop ended. What comes behind a
-- message, `later`, is looked at when the handler lets the session go on.
unfoldable pub answered :
    ClientMessage → Handled → List ClientMessage × End → List ClientMessage × End
answered msg goes_on later = (msg ∷ later.0, later.1)
answered msg finishes later = (msg ∷ [], handler_finished)
answered msg breaks later = (msg ∷ [], handler_failed)

unfoldable pub read_past : Last → Read
read_past at_end = closed
read_past fails = failed

module _ (b : Buf) (last : Last) where
  -- Each round drops a frame from the buffer or takes a chunk from the socket.
  unfoldable pub read_message_with : ℕ → List ℕ → List (List ℕ) → Read
  unfolding read_past
  read_message_with zero buf chunks = exhausted
  read_message_with (suc n) buf chunks = elim (cut buf) [
    | waiting ↦ (elim chunks [
      | [] ↦ read_past last
      | ◌∷◌ c cs ↦ (elim c [ [] ↦ closed | ◌∷◌ x xs ↦ read_message_with n (buf ++ x ∷ xs) cs ])
    ])
    | frame t payload rest ↦ (elim (decode_client_message b t payload) [
      | ok msg ↦ message msg rest chunks
      | err e ↦ read_message_with n rest chunks
      | panicked ↦ crashed
    ])
    | refused e ↦ closed
    | faulted ↦ crashed
  ]

  module _ {S : Type 0} (h : Handler S) where
    -- `fuel` is what a call of `read_message_with` may use.
    unfoldable pub run : ℕ → ℕ → S → List ℕ → List (List ℕ) → List ClientMessage × End
    unfolding answered try_decode_message read_message_with
    run fuel zero s buf chunks = ([], out_of_fuel)
    run fuel (suc n) s buf chunks = elim (try_decode_message b buf) [
      | decoded msg rest ↦
          (let r = h.handle_message s msg in
            let later = run fuel n r.0 rest chunks in answered msg r.1 later)
      | broken e ↦ ([], invalid_data e)
      | thrown ↦ ([], panic)
      | nothing buf' ↦ (elim (h.is_streaming s) [
        | true ↦ ([], streams)
        | false ↦ (elim (h.shut_down buf' chunks) [
          | true ↦ ([], remote_shutdown)
          | false ↦ (elim (read_message_with fuel buf' chunks) [
            | message msg rest left ↦
                (let r = h.handle_message s msg in
                  let later = run fuel n r.0 rest left in answered msg r.1 later)
            | closed ↦ ([], client_disconnect)
            | failed ↦ ([], read_failed)
            | crashed ↦ ([], panic)
            | exhausted ↦ ([], out_of_fuel)
          ])
        ])
      ])
    ]
