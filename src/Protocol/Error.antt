-- ===== src/Protocol/Error.antt =====
-- recisdb-protocol/src/error.rs: the protocol errors. The text of a decode error is kept as what it
-- is about.
use recisdb_proxy_rs.Base.{ℕ, List, Outcome}

pub data DecodeFault : Type 0 where
  invalid_utf8 empty_tuner_path : DecodeFault

pub data ProtocolError : Type 0 where
  invalid_magic : List ℕ → ProtocolError
  unknown_message_type : ℕ → ProtocolError
  frame_too_large : (size max : ℕ) → ProtocolError
  incomplete_frame : (expected actual : ℕ) → ProtocolError
  decode_error : DecodeFault → ProtocolError

abbrev pub Result {ℓ} : Type ℓ → Type ℓ
Result A = Outcome ProtocolError A
