-- ===== src/Protocol/Encode.antt =====
-- recisdb-protocol/src/codec.rs: encoding a message's payload. A step appends to the buffer, and `▹`
-- runs one step after another.
use recisdb_proxy_rs.Base.{ℕ, ◌%◌, Bool, Option, none, some, List, [], ◌∷◌, length, if◌then◌else◌}
use recisdb_proxy_rs.Protocol.Utf8.{Text}
use recisdb_proxy_rs.Protocol.Messages.{
  BroadcastType, terrestrial, bs, cs, ChannelFilter, ClientChannelInfo, ClientMessage,
  ServerMessage,
}
use recisdb_proxy_rs.Protocol.Messages
use recisdb_proxy_rs.Protocol.Buf.{Buf}

abbrev pub Writer : Type 0
Writer = List ℕ → List ℕ

infixr 6 ◌▹◌
unfoldable pub ◌▹◌ : Writer → Writer → Writer
◌▹◌ f g buf = g (f buf)

-- An empty payload.
unfoldable pub skip : Writer
skip buf = buf

unfoldable pub flag : Bool → ℕ
flag b = if b then 1 else 0

unfoldable pub broadcast_type_code : BroadcastType → ℕ
broadcast_type_code terrestrial = 0
broadcast_type_code bs = 1
broadcast_type_code cs = 2

-- `len() as u16` of a string's bytes.
unfoldable pub len_u16 : Text → ℕ
len_u16 s = length s % 65536

module _ (b : Buf) where
  open b use {put_u8, put_u16_le, put_u32_le, put_i32_le, put_i64_le, put_f32_le, put_slice}

  unfoldable pub put_bool : Bool → Writer
  put_bool x = put_u8 (flag x)

  unfoldable pub encode_string : Text → Writer
  encode_string s = put_u16_le (len_u16 s) ▹ put_slice s

  unfoldable pub encode_optional_string : Option Text → Writer
  encode_optional_string (some s) = put_u16_le (len_u16 s) ▹ put_slice s
  encode_optional_string none = put_u16_le 0xFFFF

  unfoldable pub encode_optional_u32 : Option ℕ → Writer
  encode_optional_u32 (some v) = put_u8 1 ▹ put_u32_le v
  encode_optional_u32 none = put_u8 0

  unfoldable pub encode_optional_u16 : Option ℕ → Writer
  encode_optional_u16 (some v) = put_u8 1 ▹ put_u16_le v
  encode_optional_u16 none = put_u8 0

  unfoldable pub encode_optional_u8 : Option ℕ → Writer
  encode_optional_u8 (some v) = put_u8 1 ▹ put_u8 v
  encode_optional_u8 none = put_u8 0

  unfoldable pub encode_broadcast_type : Option BroadcastType → Writer
  encode_broadcast_type (some t) = put_u8 1 ▹ put_u8 (broadcast_type_code t)
  encode_broadcast_type none = put_u8 0

  unfoldable pub encode_channel_filter : ChannelFilter → Writer
  encode_channel_filter f =
      encode_optional_u16 f.nid
      ▹ encode_optional_u16 f.tsid
      ▹ encode_broadcast_type f.broadcast_type
      ▹ put_bool f.enabled_only

  unfoldable pub encode_client_channel_info : ClientChannelInfo → Writer
  encode_client_channel_info ch =
      put_u16_le ch.nid
      ▹ put_u16_le ch.sid
      ▹ put_u16_le ch.tsid
      ▹ encode_string ch.channel_name
      ▹ encode_optional_string ch.network_name
      ▹ put_u8 ch.service_type
      ▹ encode_optional_u8 ch.remote_control_key
      ▹ encode_string ch.space_name
      ▹ encode_string ch.channel_display_name
      ▹ put_i32_le ch.priority

  unfoldable pub encode_channels : List ClientChannelInfo → Writer
  encode_channels [] = skip
  encode_channels (ch ∷ chs) = encode_client_channel_info ch ▹ encode_channels chs

  unfoldable pub encode_sid : Option ℕ → Writer
  encode_sid (some s) = put_u8 1 ▹ put_u16_le s
  encode_sid none = put_u8 0

  unfoldable pub encode_filter : Option ChannelFilter → Writer
  encode_filter (some f) = put_u8 1 ▹ encode_channel_filter f
  encode_filter none = put_u8 0

  -- The `match` of `encode_client_message`.
  unfoldable pub client_payload : ClientMessage → Writer
  client_payload (Messages.hello version) = put_u16_le version
  client_payload Messages.ping = skip
  client_payload (Messages.open_tuner tuner_path) =
      put_u16_le (len_u16 tuner_path) ▹ put_slice tuner_path
  client_payload (Messages.open_tuner_with_group group_name) =
      put_u16_le (len_u16 group_name) ▹ put_slice group_name
  client_payload Messages.close_tuner = skip
  client_payload (Messages.set_channel channel priority exclusive) =
      put_u8 channel ▹ put_i32_le priority ▹ put_bool exclusive
  client_payload (Messages.set_channel_space space channel priority exclusive) =
      put_u32_le space ▹ put_u32_le channel ▹ put_i32_le priority ▹ put_bool exclusive
  client_payload
        (Messages.set_channel_space_in_group group_name space_idx channel priority exclusive) =
      put_u16_le (len_u16 group_name)
      ▹ put_slice group_name
      ▹ put_u32_le space_idx
      ▹ put_u32_le channel
      ▹ put_i32_le priority
      ▹ put_bool exclusive
  client_payload Messages.get_signal_level = skip
  client_payload (Messages.enum_tuning_space space) = put_u32_le space
  client_payload (Messages.enum_channel_name space channel) = put_u32_le space ▹ put_u32_le channel
  client_payload Messages.start_stream = skip
  client_payload Messages.stop_stream = skip
  client_payload Messages.purge_stream = skip
  client_payload (Messages.set_lnb_power enable) = put_bool enable
  client_payload (Messages.select_logical_channel nid tsid sid) =
      put_u16_le nid ▹ put_u16_le tsid ▹ encode_sid sid
  client_payload (Messages.get_channel_list filter) = encode_filter filter
  client_payload (Messages.set_service_filter single_service) = put_bool single_service

  -- The `match` of `encode_server_message`.
  unfoldable pub server_payload : ServerMessage → Writer
  server_payload (Messages.hello_ack version success) = put_u16_le version ▹ put_bool success
  server_payload Messages.pong = skip
  server_payload (Messages.open_tuner_ack success error_code bondriver_version) =
      put_bool success ▹ put_u16_le error_code ▹ put_u8 bondriver_version
  server_payload (Messages.close_tuner_ack success) = put_bool success
  server_payload (Messages.set_channel_ack success error_code) =
      put_bool success ▹ put_u16_le error_code
  server_payload (Messages.set_channel_space_ack success error_code) =
      put_bool success ▹ put_u16_le error_code
  server_payload (Messages.get_signal_level_ack signal_level) = put_f32_le signal_level
  server_payload (Messages.enum_tuning_space_ack name) = encode_optional_string name
  server_payload (Messages.enum_channel_name_ack name) = encode_optional_string name
  server_payload (Messages.start_stream_ack success error_code) =
      put_bool success ▹ put_u16_le error_code
  server_payload (Messages.stop_stream_ack success) = put_bool success
  server_payload (Messages.ts_data bytes) = put_slice bytes
  server_payload (Messages.purge_stream_ack success) = put_bool success
  server_payload (Messages.set_lnb_power_ack success error_code) =
      put_bool success ▹ put_u16_le error_code
  server_payload (Messages.error error_code message) =
      put_u16_le error_code ▹ put_u16_le (len_u16 message) ▹ put_slice message
  server_payload (Messages.select_logical_channel_ack success error_code tuner_id space channel) =
      put_bool success
      ▹ put_u16_le error_code
      ▹ encode_optional_string tuner_id
      ▹ encode_optional_u32 space
      ▹ encode_optional_u32 channel
  server_payload (Messages.get_channel_list_ack channels timestamp) =
      put_i64_le timestamp ▹ put_u32_le (length channels % 4294967296) ▹ encode_channels channels
  server_payload (Messages.set_service_filter_ack success) = put_bool success
