-- ===== src/Protocol/PanicFree.antt =====
-- Decoding any bytes that a peer sends: each `get` finds the bytes that it reads, so that only the
-- reservation of a list of channels can panic.
use recisdb_proxy_rs.Base.{
  ℕ, zero, suc, ◌<◌, ◌≤◌, ◌≡◌, ◌≢◌, ◌↔◌, refl, subst, Bool, true, false, some, List, [], ◌∷◌,
  length, take, drop, length-take, length-drop, take-append-drop, ltb, ltb_of_le, le_of_ltb,
  Bool-cases, inl, inr, arith, ok, err, panicked,
}
use recisdb_proxy_rs.Base.Bytes.{le_value}
use recisdb_proxy_rs.Base.Ints.{ℤ}
use recisdb_proxy_rs.Protocol.Messages
use recisdb_proxy_rs.Protocol.Error.{Result}
use recisdb_proxy_rs.Protocol.MessageType.{MessageType}
use recisdb_proxy_rs.Protocol.Messages.{ClientChannelInfo, ServerMessage}
use recisdb_proxy_rs.Protocol.Buf.{Buf, IsBuf}
use recisdb_proxy_rs.Protocol.Reader.{Reader, ◌>>=◌, need, reserving, pure, get, result}
use recisdb_proxy_rs.Protocol.Decode.{
  from_utf8, non_empty, text_of, decode_string, decode_optional_string, decode_option,
  decode_optional_u32, decode_optional_u16, decode_optional_u8, decode_broadcast_type,
  decode_channel_filter, decode_client_channel_info, decode_channels, decode_sid, decode_filter,
  client_reader, decode_client_message, ack_reader, success_reader, server_reader,
  decode_server_message,
}
use recisdb_proxy_rs.Protocol.Safe.{
  Safe, Safe-pure, Safe-fail, Safe-if, Safe-need, Safe-bind, Safe-get, Safe-get_last, Safe-bool,
  bool-Safe, u8-Gets, u16-Gets, u32-Gets, f32-Gets, i32-Gets, i64-Gets, copy-Gets,
}

from_utf8-Safe : (bytes : List ℕ) → Safe 0 (from_utf8 bytes)
unfolding from_utf8
from_utf8-Safe bytes = Safe-if _ (Safe-pure _) (Safe-fail _)

non_empty-Safe : (s : List ℕ) → Safe 0 (non_empty s)
unfolding non_empty
non_empty-Safe [] = Safe-fail _
non_empty-Safe (c ∷ s) = Safe-pure _

result-ne-panicked {ℓ} : {A : Type ℓ} (r : Result (A × List ℕ)) → r ≢ panicked → result r ≢ panicked
result-ne-panicked (ok x) h = λ e. cc
result-ne-panicked (err x) h = λ e. cc
result-ne-panicked panicked h = absurd (h refl)

-- The count of a list of channels, behind its time.
abbrev pub channel_count : List ℕ → ℕ
channel_count payload = le_value (take 4 (drop 8 payload))

abbrev pub IsOversized : Buf → MessageType → List ℕ → Type 0
IsOversized b t payload =
    (t ≡ MessageType.get_channel_list_ack)
    × (12 ≤ length payload)
    × (b.capacity < channel_count payload)

module _ (b : Buf) (laws : IsBuf b) where
  text_of-Safe : (len : ℕ) → Safe 0 (text_of b len)
  unfolding text_of
  text_of-Safe len = Safe-need (Safe-bind _ (Safe-get_last (copy-Gets b laws len)) from_utf8-Safe)

  decode_string-Safe : Safe 0 (decode_string b)
  unfolding decode_string
  decode_string-Safe = Safe-need (Safe-get _ (u16-Gets b laws) text_of-Safe)

  decode_optional_string-Safe : Safe 0 (decode_optional_string b)
  unfolding decode_optional_string
  decode_optional_string-Safe = Safe-need (
      Safe-get _ (u16-Gets b laws)
        λ len. Safe-if _ (Safe-pure _) (Safe-bind _ (text_of-Safe len) (λ s. Safe-pure _)))

  decode_option-Safe : {A : Type 0} (n : ℕ) (p : Reader A) → Safe n p → Safe 0 (decode_option b n p)
  unfolding decode_option
  decode_option-Safe n p x = Safe-need (
      Safe-bool b laws {n = 0} _
        λ has. Safe-if has (Safe-need (Safe-bind _ x (λ v. Safe-pure _))) (Safe-pure _))

  decode_optional_u32-Safe : Safe 0 (decode_optional_u32 b)
  unfolding decode_optional_u32
  decode_optional_u32-Safe = decode_option-Safe 4 _ (Safe-get_last (u32-Gets b laws))

  decode_optional_u16-Safe : Safe 0 (decode_optional_u16 b)
  unfolding decode_optional_u16
  decode_optional_u16-Safe = decode_option-Safe 2 _ (Safe-get_last (u16-Gets b laws))

  decode_optional_u8-Safe : Safe 0 (decode_optional_u8 b)
  unfolding decode_optional_u8
  decode_optional_u8-Safe = decode_option-Safe 1 _ (Safe-get_last (u8-Gets b laws))

  decode_broadcast_type-Safe : Safe 0 (decode_broadcast_type b)
  unfolding decode_broadcast_type
  decode_broadcast_type-Safe =
      decode_option-Safe 1 _ (Safe-get {n = 0} _ (u8-Gets b laws) (λ code. Safe-pure _))

  decode_channel_filter-Safe : Safe 0 (decode_channel_filter b)
  unfolding decode_channel_filter
  decode_channel_filter-Safe = Safe-bind _ decode_optional_u16-Safe λ nid.
      Safe-bind _ decode_optional_u16-Safe λ tsid.
        Safe-bind _ decode_broadcast_type-Safe
          λ broadcast_type. Safe-bind _ (Safe-need (bool-Safe b laws)) λ enabled_only. Safe-pure _

  decode_client_channel_info-Safe : Safe 0 (decode_client_channel_info b)
  unfolding decode_client_channel_info
  decode_client_channel_info-Safe = Safe-need (
      Safe-get {n = 4} _ (u16-Gets b laws) λ nid. Safe-get {n = 2} _ (u16-Gets b laws) λ sid.
        Safe-get {n = 0} _ (u16-Gets b laws) λ tsid. Safe-bind _ decode_string-Safe λ channel_name.
          Safe-bind _ decode_optional_string-Safe λ network_name.
            Safe-bind _ (Safe-need (Safe-get_last (u8-Gets b laws))) λ service_type.
              Safe-bind _ decode_optional_u8-Safe λ remote_control_key.
                Safe-bind _ decode_string-Safe λ space_name.
                  Safe-bind _ decode_string-Safe λ channel_display_name.
                    Safe-bind _ (Safe-need (Safe-get_last (i32-Gets b laws)))
                      λ priority. Safe-pure _)

  decode_channels-Safe : (count : ℕ) → Safe 0 (decode_channels b count)
  unfolding decode_channels
  decode_channels-Safe zero = Safe-pure _
  decode_channels-Safe (suc n) =
      Safe-bind _ decode_client_channel_info-Safe
        λ ch. Safe-bind _ (decode_channels-Safe n) λ chs. Safe-pure _

  decode_sid-Safe : (has_sid : Bool) → Safe 0 (decode_sid b has_sid)
  unfolding decode_sid
  decode_sid-Safe has_sid =
      Safe-if has_sid (Safe-need (Safe-get {n = 0} _ (u16-Gets b laws) (λ s. Safe-pure _)))
        (Safe-pure _)

  decode_filter-Safe : (has_filter : Bool) → Safe 0 (decode_filter b has_filter)
  unfolding decode_filter
  decode_filter-Safe has_filter =
      Safe-if has_filter (Safe-bind _ decode_channel_filter-Safe (λ f. Safe-pure _)) (Safe-pure _)

  client_reader-Safe : (t : MessageType) → Safe 0 (client_reader b t)
  unfolding client_reader
  client_reader-Safe MessageType.hello =
      Safe-need (Safe-get {n = 0} _ (u16-Gets b laws) (λ v. Safe-pure _))
  client_reader-Safe MessageType.ping = Safe-pure _
  client_reader-Safe MessageType.open_tuner =
      Safe-need (Safe-bind _ (Safe-get _ (u16-Gets b laws) text_of-Safe) non_empty-Safe)
  client_reader-Safe MessageType.close_tuner = Safe-pure _
  client_reader-Safe MessageType.set_channel = Safe-need (
      Safe-get {n = 5} _ (u8-Gets b laws) λ channel.
        Safe-get {n = 1} _ (i32-Gets b laws)
          λ priority. Safe-bool b laws {n = 0} _ λ exclusive. Safe-pure _)
  client_reader-Safe MessageType.set_channel_space = Safe-need (
      Safe-get {n = 9} _ (u32-Gets b laws) λ space. Safe-get {n = 5} _ (u32-Gets b laws) λ channel.
        Safe-get {n = 1} _ (i32-Gets b laws)
          λ priority. Safe-bool b laws {n = 0} _ λ exclusive. Safe-pure _)
  client_reader-Safe MessageType.get_signal_level = Safe-pure _
  client_reader-Safe MessageType.enum_tuning_space =
      Safe-need (Safe-get {n = 0} _ (u32-Gets b laws) (λ space. Safe-pure _))
  client_reader-Safe MessageType.enum_channel_name = Safe-need (
      Safe-get {n = 4} _ (u32-Gets b laws)
        λ space. Safe-get {n = 0} _ (u32-Gets b laws) λ channel. Safe-pure _)
  client_reader-Safe MessageType.start_stream = Safe-pure _
  client_reader-Safe MessageType.stop_stream = Safe-pure _
  client_reader-Safe MessageType.purge_stream = Safe-pure _
  client_reader-Safe MessageType.set_lnb_power =
      Safe-need (Safe-bool b laws {n = 0} _ (λ enable. Safe-pure _))
  client_reader-Safe MessageType.select_logical_channel = Safe-need (
      Safe-get {n = 3} _ (u16-Gets b laws) λ nid. Safe-get {n = 1} _ (u16-Gets b laws) λ tsid.
        Safe-bool b laws {n = 0} _
          λ has_sid. Safe-bind _ (decode_sid-Safe has_sid) λ sid. Safe-pure _)
  client_reader-Safe MessageType.get_channel_list = Safe-need (
      Safe-bool b laws {n = 0} _
        λ has_filter. Safe-bind _ (decode_filter-Safe has_filter) λ filter. Safe-pure _)
  client_reader-Safe MessageType.set_service_filter =
      Safe-need (Safe-bool b laws {n = 0} _ (λ single_service. Safe-pure _))
  client_reader-Safe _ = Safe-fail _

  -- No payload makes the decoder of client messages panic, whatever its message type.
  pub decode_client_message-ne-panicked :
      (t : MessageType) (payload : List ℕ) → decode_client_message b t payload ≢ panicked
  unfolding decode_client_message
  decode_client_message-ne-panicked t payload =
      result-ne-panicked _ ((client_reader-Safe t).safe payload (omega arith))

  success_reader-Safe : (f : Bool → ServerMessage) → Safe 0 (success_reader b f)
  unfolding success_reader
  success_reader-Safe f = Safe-need (Safe-bool b laws {n = 0} _ (λ success. Safe-pure _))

  ack_reader-Safe : (f : Bool → ℕ → ServerMessage) → Safe 0 (ack_reader b f)
  unfolding ack_reader
  ack_reader-Safe f = Safe-need (
      Safe-bool b laws {n = 2} _
        λ success. Safe-get {n = 0} _ (u16-Gets b laws) λ error_code. Safe-pure _)

  server_reader-Safe :
      (t : MessageType) → t ≢ MessageType.get_channel_list_ack → Safe 0 (server_reader b t)
  unfolding server_reader
  server_reader-Safe MessageType.hello_ack h = Safe-need (
      Safe-get {n = 1} _ (u16-Gets b laws)
        λ version. Safe-bool b laws {n = 0} _ λ success. Safe-pure _)
  server_reader-Safe MessageType.pong h = Safe-pure _
  server_reader-Safe MessageType.open_tuner_ack h = Safe-need (
      Safe-bool b laws {n = 3} _ λ success.
        Safe-get {n = 1} _ (u16-Gets b laws)
          λ error_code. Safe-get {n = 0} _ (u8-Gets b laws) λ bondriver_version. Safe-pure _)
  server_reader-Safe MessageType.close_tuner_ack h = success_reader-Safe _
  server_reader-Safe MessageType.set_channel_ack h = ack_reader-Safe _
  server_reader-Safe MessageType.set_channel_space_ack h = ack_reader-Safe _
  server_reader-Safe MessageType.get_signal_level_ack h =
      Safe-need (Safe-get {n = 0} _ (f32-Gets b laws) (λ level. Safe-pure _))
  server_reader-Safe MessageType.enum_tuning_space_ack h =
      Safe-bind _ decode_optional_string-Safe (λ name. Safe-pure _)
  server_reader-Safe MessageType.enum_channel_name_ack h =
      Safe-bind _ decode_optional_string-Safe (λ name. Safe-pure _)
  server_reader-Safe MessageType.start_stream_ack h = ack_reader-Safe _
  server_reader-Safe MessageType.stop_stream_ack h = success_reader-Safe _
  server_reader-Safe MessageType.ts_data h = record {
    safe = λ payload k. (Safe-pure {n = 0} _).safe [] (omega arith);
  }
  server_reader-Safe MessageType.purge_stream_ack h = success_reader-Safe _
  server_reader-Safe MessageType.set_lnb_power_ack h = ack_reader-Safe _
  server_reader-Safe MessageType.select_logical_channel_ack h = Safe-need (
      Safe-bool b laws {n = 2} _ λ success. Safe-get {n = 0} _ (u16-Gets b laws) λ error_code.
        Safe-bind _ decode_optional_string-Safe λ tuner_id.
          Safe-bind _ decode_optional_u32-Safe
            λ space. Safe-bind _ decode_optional_u32-Safe λ channel. Safe-pure _)
  server_reader-Safe MessageType.get_channel_list_ack h = absurd (h refl)
  server_reader-Safe MessageType.set_service_filter_ack h = success_reader-Safe _
  server_reader-Safe MessageType.error h = Safe-need (
      Safe-get {n = 2} _ (u16-Gets b laws) λ error_code.
        Safe-get {n = 0} _ (u16-Gets b laws)
          λ msg_len. Safe-bind _ (text_of-Safe msg_len) λ message. Safe-pure _)
  server_reader-Safe _ h = Safe-fail _

  -- A list of channels, behind its two fixed fields.
  list_reader_lem :
      (payload : List ℕ)
      → 12 ≤ length payload
      → (timestamp : ℤ) × (server_reader b MessageType.get_channel_list_ack payload
          ≡ (reserving b.capacity
                  (channel_count payload)
                  (decode_channels b (channel_count payload))
                >>= λ channels. pure (Messages.get_channel_list_ack channels timestamp))
              (drop 4 (drop 8 payload)))
  unfolding server_reader need ◌>>=◌ get
  list_reader_lem payload h =
      let (timestamp, first) = (i64-Gets b laws).gets payload (omega arith) in
      let rest = drop 8 payload in
      let front : length (take 4 rest) ≡ 4 =
        omega (arith, h, length-take 4 rest, length-drop 8 payload) in
      let second : b.get_u32_le rest ≡ some (channel_count payload, drop 4 rest) =
        subst (λ l. b.get_u32_le l ≡ some (channel_count payload, drop 4 rest))
          (take-append-drop 4 rest) (laws.get_u32_le_first (take 4 rest) (drop 4 rest) front) in
      let long : ltb (length payload) 12 ≡ false = ltb_of_le (length payload) 12 h in
      (timestamp, rw (long, first, second) refl)

  list_reader-fits :
      (payload : List ℕ)
      → 12 ≤ length payload
      → ltb b.capacity (channel_count payload) ≡ false
      → server_reader b MessageType.get_channel_list_ack payload ≢ panicked
  unfolding reserving
  list_reader-fits payload h fits =
      let (timestamp, e) = list_reader_lem payload h in
      let n = channel_count payload in
      let reads : Safe 0 (reserving b.capacity n (decode_channels b n)) = record {
        safe = λ buf k. rw fits ((decode_channels-Safe n).safe buf k);
      } in
      let f : List ClientChannelInfo → Reader ServerMessage =
        λ channels. pure (Messages.get_channel_list_ack channels timestamp) in
      rw e
        ((Safe-bind f reads (λ channels. Safe-pure _)).safe (drop 4 (drop 8 payload)) (omega arith))

  list_reader-panics :
      (payload : List ℕ)
      → 12 ≤ length payload
      → b.capacity < channel_count payload
      → server_reader b MessageType.get_channel_list_ack payload ≡ panicked
  unfolding reserving ◌>>=◌
  list_reader-panics payload h over =
      let (timestamp, e) = list_reader_lem payload h in
      let too_many : ltb b.capacity (channel_count payload) ≡ true = ground (arith, over) in
      rw (e, too_many) refl

  list_reader-short :
      (payload : List ℕ)
      → ltb (length payload) 12 ≡ true
      → server_reader b MessageType.get_channel_list_ack payload ≢ panicked
  unfolding server_reader need
  list_reader-short payload short = rw short (λ e. cc)

  panics-IsOversized :
      (t : MessageType) (payload : List ℕ)
      → decode_server_message b t payload ≡ panicked
      → IsOversized b t payload
  unfolding decode_server_message
  panics-IsOversized MessageType.get_channel_list_ack payload e =
      elim (Bool-cases (ltb (length payload) 12)) [
        | inl short ↦ absurd (result-ne-panicked _ (list_reader-short payload short) e)
        | inr long ↦
            (let h = le_of_ltb (length payload) 12 long in
              elim (Bool-cases (ltb b.capacity (channel_count payload))) [
                | inl over ↦ (refl, h, ground arith)
                | inr fits ↦ absurd (result-ne-panicked _ (list_reader-fits payload h fits) e)
              ])
      ]
  panics-IsOversized t payload e =
      absurd
        (result-ne-panicked _ ((server_reader-Safe t (λ same. cc)).safe payload (omega arith)) e)

  -- The decoder of server messages panics exactly on a list of channels whose count, which nothing checks,
  -- is more than a vector can reserve: 12 bytes are enough for that. No other payload, of any type,
  -- makes it panic.
  pub decode_server_message-panics :
      (t : MessageType) (payload : List ℕ)
      → (decode_server_message b t payload ≡ panicked) ↔ IsOversized b t payload
  unfolding decode_server_message
  decode_server_message-panics t payload =
      (panics-IsOversized t payload, λ h. rw h.0 (rw (list_reader-panics payload h.1 h.2) refl))
