-- ===== src/Protocol/Roundtrip/Server.antt =====
-- Server messages: encoding, then decoding.
use native.Mathlib.Nat.{mod-eq_of_lt}
use recisdb_proxy_rs.Base.{
  ℕ, ◌%◌, ◌≤◌, ◌≡◌, ◌≢◌, refl, ap, List, [], All, length, length-append, Bool, arith, ok,
}
use recisdb_proxy_rs.Base.Ints.{ℤ}
use recisdb_proxy_rs.Protocol.Frame.{max_frame_size}
use recisdb_proxy_rs.Protocol.Messages.{ClientChannelInfo, ServerMessage, server_message_type}
use recisdb_proxy_rs.Protocol.Messages
use recisdb_proxy_rs.Protocol.Buf.{Buf, IsBuf}
use recisdb_proxy_rs.Protocol.Reader.{pure}
use recisdb_proxy_rs.Protocol.Encode.{◌▹◌, len_u16, put_bool, server_payload}
use recisdb_proxy_rs.Protocol.Decode.{
  ack_reader, success_reader, server_reader, decode_server_message,
}
use recisdb_proxy_rs.Protocol.InRange.{IsU16, IsChannel, ServerInRange}
use recisdb_proxy_rs.Protocol.Codes.{
  Codes, Codes-reserving, Codes-bind, Codes-last, Codes-guard, Codes-weaken, Codes-skip,
  Codes-result, u8-Codes, u16-Codes, u32-Codes, f32-Codes, i64-Codes, bool-Codes,
}
use recisdb_proxy_rs.Protocol.Roundtrip.Fields.{
  text-Codes, optional_string-Codes, optional_u32-Codes, channels-Codes,
}

module _ (b : Buf) (laws : IsBuf b) where
  success-Codes :
      (f : Bool → ServerMessage) (success : Bool)
      → Codes 0 (put_bool b success) (success_reader b f) (f success)
  unfolding success_reader
  success-Codes f success = Codes-guard (Codes-last f (bool-Codes b laws success)) (omega arith)

  ack-Codes :
      (f : Bool → ℕ → ServerMessage) (success : Bool) (error_code : ℕ)
      → IsU16 error_code
      → Codes 0
          (put_bool b success ▹ b.put_u16_le error_code)
          (ack_reader b f)
          (f success error_code)
  unfolding ack_reader
  ack-Codes f success error_code h =
      Codes-guard
        (Codes-bind _ (bool-Codes b laws success)
          (Codes-last (f success) (u16-Codes b laws error_code h)))
        (omega arith)

  -- Each channel takes a byte of the frame, or more.
  few_channels :
      (channels : List ClientChannelInfo) (timestamp : ℤ)
      → All IsChannel channels
      → length (server_payload b (Messages.get_channel_list_ack channels timestamp) [])
        ≤ max_frame_size
      → length channels ≤ b.capacity
  unfolding server_payload ◌▹◌
  few_channels channels timestamp h small =
      let list = channels-Codes b laws channels h in
      let front = b.put_u32_le (length channels % 4294967296) (b.put_i64_le timestamp []) in
      omega (
        arith,
        small,
        ap length (list.writes front),
        length-append front list.bytes,
        list.at_least,
        laws.capacity_mebi,
      )

  server-Codes :
      (msg : ServerMessage)
      → ServerInRange msg
      → length (server_payload b msg []) ≤ max_frame_size
      → ((bytes : List ℕ) → msg ≢ Messages.ts_data bytes)
      → Codes 0 (server_payload b msg) (server_reader b (server_message_type msg)) msg
  unfolding server_payload server_reader server_message_type len_u16
  server-Codes (Messages.hello_ack version success) h small _ =
      Codes-guard
        (Codes-bind _ (u16-Codes b laws version h) (Codes-last _ (bool-Codes b laws success)))
        (omega arith)
  server-Codes Messages.pong h small _ = Codes-skip Messages.pong
  server-Codes (Messages.open_tuner_ack success error_code bondriver_version) h small _ =
      Codes-guard
        (Codes-bind _ (bool-Codes b laws success) (
          Codes-bind _ (u16-Codes b laws error_code h.0)
            (Codes-last _ (u8-Codes b laws bondriver_version h.1))))
        (omega arith)
  server-Codes (Messages.close_tuner_ack success) h small _ = success-Codes _ success
  server-Codes (Messages.set_channel_ack success error_code) h small _ =
      ack-Codes _ success error_code h
  server-Codes (Messages.set_channel_space_ack success error_code) h small _ =
      ack-Codes _ success error_code h
  server-Codes (Messages.get_signal_level_ack level) h small _ =
      Codes-guard (Codes-last _ (f32-Codes b laws level h)) (omega arith)
  server-Codes (Messages.enum_tuning_space_ack name) h small _ =
      Codes-weaken (Codes-last _ (optional_string-Codes b laws name h)) (omega arith)
  server-Codes (Messages.enum_channel_name_ack name) h small _ =
      Codes-weaken (Codes-last _ (optional_string-Codes b laws name h)) (omega arith)
  server-Codes (Messages.start_stream_ack success error_code) h small _ =
      ack-Codes _ success error_code h
  server-Codes (Messages.stop_stream_ack success) h small _ = success-Codes _ success
  server-Codes (Messages.ts_data bytes) h small other = absurd (other bytes refl)
  server-Codes (Messages.purge_stream_ack success) h small _ = success-Codes _ success
  server-Codes (Messages.set_lnb_power_ack success error_code) h small _ =
      ack-Codes _ success error_code h
  server-Codes (Messages.select_logical_channel_ack success error_code tuner_id space channel) h
        small _ =
      Codes-guard
        (Codes-bind _ (bool-Codes b laws success) (
          Codes-bind _ (u16-Codes b laws error_code h.0) (
            Codes-bind _ (optional_string-Codes b laws tuner_id h.1) (
              Codes-bind _ (optional_u32-Codes b laws space h.2)
                (Codes-last _ (optional_u32-Codes b laws channel h.3))))))
        (omega arith)
  server-Codes (Messages.get_channel_list_ack channels timestamp) h small _ =
      rw (mod-eq_of_lt h.1) (
        Codes-guard
          (Codes-bind _ (i64-Codes b laws timestamp h.2) (
            Codes-bind _ (u32-Codes b laws (length channels) h.1) (
              Codes-last _ (
                Codes-reserving b.capacity (length channels) (channels-Codes b laws channels h.0)
                  (few_channels channels timestamp h.0 small)))))
          (omega arith))
  server-Codes (Messages.set_service_filter_ack success) h small _ = success-Codes _ success
  server-Codes (Messages.error error_code message) h small _ = rw (mod-eq_of_lt h.1.1) (
      Codes-guard
        (Codes-bind _ (u16-Codes b laws error_code h.0) (
          Codes-bind _ (u16-Codes b laws (length message) h.1.1)
            (Codes-last _ (text-Codes b laws message h.1.0))))
        (omega arith))

  -- A chunk of stream data is the payload itself.
  ts_data-payload :
      (bytes : List ℕ)
      → decode_server_message b
          (server_message_type (Messages.ts_data bytes))
          (server_payload b (Messages.ts_data bytes) [])
        ≡ ok (Messages.ts_data bytes)
  unfolding server_payload server_reader decode_server_message server_message_type pure
  ts_data-payload bytes = ap (λ p. ok (Messages.ts_data p)) (laws.put_slice_append bytes [])

  decoded :
      (msg : ServerMessage)
      → ServerInRange msg
      → length (server_payload b msg []) ≤ max_frame_size
      → ((bytes : List ℕ) → msg ≢ Messages.ts_data bytes)
      → decode_server_message b (server_message_type msg) (server_payload b msg []) ≡ ok msg
  unfolding decode_server_message
  decoded msg h small other = Codes-result (server-Codes msg h small other)

  pub decode_server_message-payload :
      (msg : ServerMessage)
      → ServerInRange msg
      → length (server_payload b msg []) ≤ max_frame_size
      → decode_server_message b (server_message_type msg) (server_payload b msg []) ≡ ok msg
  decode_server_message-payload (Messages.ts_data bytes) h small = ts_data-payload bytes
  decode_server_message-payload Messages.pong h small =
      decoded Messages.pong h small (λ bytes e. cc)
  decode_server_message-payload msg h small = decoded msg h small (λ bytes e. cc)
