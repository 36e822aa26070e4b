-- ===== src/Protocol/Decode.antt =====
-- recisdb-protocol/src/codec.rs: decoding a payload, once its message type is known from the header.
use recisdb_proxy_rs.Base.{
  ℕ, zero, suc, Bool, not, Option, none, some, List, [], ◌∷◌, ◌==◌, if◌then◌else◌,
}
use recisdb_proxy_rs.Protocol.Utf8.{Text, is_utf8}
use recisdb_proxy_rs.Protocol.Error.{
  Result, invalid_utf8, empty_tuner_path, unknown_message_type, decode_error,
}
use recisdb_proxy_rs.Protocol.MessageType.{MessageType, to_u16}
use recisdb_proxy_rs.Protocol.Messages.{
  BroadcastType, terrestrial, bs, cs, ChannelFilter, ClientChannelInfo, ClientMessage,
  ServerMessage,
}
use recisdb_proxy_rs.Protocol.Messages
use recisdb_proxy_rs.Protocol.Buf.{Buf}
use recisdb_proxy_rs.Protocol.Reader.{Reader, ◌>>=◌, need, reserving, pure, fail, get, result}

-- `String::from_utf8`.
unfoldable pub from_utf8 : List ℕ → Reader Text
from_utf8 bytes = if is_utf8 bytes then pure bytes else fail (decode_error invalid_utf8)

unfoldable pub broadcast_type_of : ℕ → BroadcastType
broadcast_type_of n = if n == 0 then terrestrial else if n == 1 then bs else cs

unfoldable pub non_empty : Text → Reader ClientMessage
non_empty [] = fail (decode_error empty_tuner_path)
non_empty (c ∷ rest) = pure (Messages.open_tuner (c ∷ rest))

module _ (b : Buf) where
  open b use {get_u8, get_u16_le, get_u32_le, get_i32_le, get_i64_le, get_f32_le, copy_to_bytes}

  -- `get_u8() != 0`.
  unfoldable pub get_bool : Reader Bool
  get_bool = do v ← get get_u8; pure (not (v == 0))

  -- The bytes of a string whose length has been read.
  unfoldable pub text_of : ℕ → Reader Text
  text_of len = need len (get (copy_to_bytes len) >>= from_utf8)

  unfoldable pub decode_string : Reader Text
  decode_string = need 2 (get get_u16_le >>= text_of)

  unfoldable pub decode_optional_string : Reader (Option Text)
  decode_optional_string = need 2 (
      get get_u16_le >>= λ len.
      if len == 0xFFFF then pure none else (text_of len >>= λ s. pure (some s)))

  -- A presence byte, then the value: the shape of `decode_optional_u8`, `_u16` and `_u32`.
  unfoldable pub decode_option : {A : Type 0} → ℕ → Reader A → Reader (Option A)
  decode_option n p =
      need 1 (
        get_bool >>= λ has_value.
        if has_value then need n (p >>= λ v. pure (some v)) else pure none)

  unfoldable pub decode_optional_u32 : Reader (Option ℕ)
  decode_optional_u32 = decode_option 4 (get get_u32_le)

  unfoldable pub decode_optional_u16 : Reader (Option ℕ)
  decode_optional_u16 = decode_option 2 (get get_u16_le)

  unfoldable pub decode_optional_u8 : Reader (Option ℕ)
  decode_optional_u8 = decode_option 1 (get get_u8)

  unfoldable pub decode_broadcast_type : Reader (Option BroadcastType)
  decode_broadcast_type = decode_option 1 (get get_u8 >>= λ code. pure (broadcast_type_of code))

  unfoldable pub decode_channel_filter : Reader ChannelFilter
  decode_channel_filter = do
    nid ← decode_optional_u16
    tsid ← decode_optional_u16
    broadcast_type ← decode_broadcast_type
    enabled_only ← need 1 get_bool
    pure (record {
      nid = nid;
      tsid = tsid;
      broadcast_type = broadcast_type;
      enabled_only = enabled_only;
    })

  unfoldable pub decode_client_channel_info : Reader ClientChannelInfo
  decode_client_channel_info = need 6 do
    nid ← get get_u16_le
    sid ← get get_u16_le
    tsid ← get get_u16_le
    channel_name ← decode_string
    network_name ← decode_optional_string
    service_type ← need 1 (get get_u8)
    remote_control_key ← decode_optional_u8
    space_name ← decode_string
    channel_display_name ← decode_string
    priority ← need 4 (get get_i32_le)
    pure (record {
      nid = nid;
      sid = sid;
      tsid = tsid;
      channel_name = channel_name;
      network_name = network_name;
      service_type = service_type;
      remote_control_key = remote_control_key;
      space_name = space_name;
      channel_display_name = channel_display_name;
      priority = priority;
    })

  -- The loop `for _ in 0..count`.
  unfoldable pub decode_channels : ℕ → Reader (List ClientChannelInfo)
  decode_channels zero = pure []
  decode_channels (suc n) = do
    ch ← decode_client_channel_info
    chs ← decode_channels n
    pure (ch ∷ chs)

  unfoldable pub decode_sid : Bool → Reader (Option ℕ)
  decode_sid has_sid = if has_sid then need 2 (get get_u16_le >>= λ s. pure (some s)) else pure none

  unfoldable pub decode_filter : Bool → Reader (Option ChannelFilter)
  decode_filter has_filter =
      if has_filter then (decode_channel_filter >>= λ f. pure (some f)) else pure none

  unfoldable pub client_reader : MessageType → Reader ClientMessage
  client_reader MessageType.hello = need 2 (get get_u16_le >>= λ v. pure (Messages.hello v))
  client_reader MessageType.ping = pure Messages.ping
  client_reader MessageType.open_tuner = need 2 (get get_u16_le >>= text_of >>= non_empty)
  client_reader MessageType.close_tuner = pure Messages.close_tuner
  client_reader MessageType.set_channel = need 6 do
    channel ← get get_u8
    priority ← get get_i32_le
    exclusive ← get_bool
    pure (Messages.set_channel channel priority exclusive)
  client_reader MessageType.set_channel_space = need 13 do
    space ← get get_u32_le
    channel ← get get_u32_le
    priority ← get get_i32_le
    exclusive ← get_bool
    pure (Messages.set_channel_space space channel priority exclusive)
  client_reader MessageType.get_signal_level = pure Messages.get_signal_level
  client_reader MessageType.enum_tuning_space =
      need 4 (get get_u32_le >>= λ space. pure (Messages.enum_tuning_space space))
  client_reader MessageType.enum_channel_name = need 8 do
    space ← get get_u32_le
    channel ← get get_u32_le
    pure (Messages.enum_channel_name space channel)
  client_reader MessageType.start_stream = pure Messages.start_stream
  client_reader MessageType.stop_stream = pure Messages.stop_stream
  client_reader MessageType.purge_stream = pure Messages.purge_stream
  client_reader MessageType.set_lnb_power =
      need 1 (get_bool >>= λ enable. pure (Messages.set_lnb_power enable))
  client_reader MessageType.select_logical_channel = need 5 do
    nid ← get get_u16_le
    tsid ← get get_u16_le
    has_sid ← get_bool
    sid ← decode_sid has_sid
    pure (Messages.select_logical_channel nid tsid sid)
  client_reader MessageType.get_channel_list = need 1 do
    has_filter ← get_bool
    filter ← decode_filter has_filter
    pure (Messages.get_channel_list filter)
  client_reader MessageType.set_service_filter =
      need 1 (get_bool >>= λ single_service. pure (Messages.set_service_filter single_service))
  client_reader t = fail (unknown_message_type (to_u16 t))

  unfoldable pub decode_client_message : MessageType → List ℕ → Result ClientMessage
  decode_client_message t payload = result (client_reader t payload)

  -- `success` and `error_code`, the start of five acknowledgements.
  unfoldable pub ack_reader : (Bool → ℕ → ServerMessage) → Reader ServerMessage
  ack_reader f =
      need 3 do success ← get_bool; error_code ← get get_u16_le; pure (f success error_code)

  unfoldable pub success_reader : (Bool → ServerMessage) → Reader ServerMessage
  success_reader f = need 1 (get_bool >>= λ success. pure (f success))

  unfoldable pub server_reader : MessageType → Reader ServerMessage
  server_reader MessageType.hello_ack =
      need 3
        do version ← get get_u16_le; success ← get_bool; pure (Messages.hello_ack version success)
  server_reader MessageType.pong = pure Messages.pong
  server_reader MessageType.open_tuner_ack = need 4 do
    success ← get_bool
    error_code ← get get_u16_le
    bondriver_version ← get get_u8
    pure (Messages.open_tuner_ack success error_code bondriver_version)
  server_reader MessageType.close_tuner_ack = success_reader Messages.close_tuner_ack
  server_reader MessageType.set_channel_ack = ack_reader Messages.set_channel_ack
  server_reader MessageType.set_channel_space_ack = ack_reader Messages.set_channel_space_ack
  server_reader MessageType.get_signal_level_ack =
      need 4 (get get_f32_le >>= λ level. pure (Messages.get_signal_level_ack level))
  server_reader MessageType.enum_tuning_space_ack =
      decode_optional_string >>= λ name. pure (Messages.enum_tuning_space_ack name)
  server_reader MessageType.enum_channel_name_ack =
      decode_optional_string >>= λ name. pure (Messages.enum_channel_name_ack name)
  server_reader MessageType.start_stream_ack = ack_reader Messages.start_stream_ack
  server_reader MessageType.stop_stream_ack = success_reader Messages.stop_stream_ack
  server_reader MessageType.ts_data = λ payload. pure (Messages.ts_data payload) []
  server_reader MessageType.purge_stream_ack = success_reader Messages.purge_stream_ack
  server_reader MessageType.set_lnb_power_ack = ack_reader Messages.set_lnb_power_ack
  server_reader MessageType.select_logical_channel_ack = need 3 do
    success ← get_bool
    error_code ← get get_u16_le
    tuner_id ← decode_optional_string
    space ← decode_optional_u32
    channel ← decode_optional_u32
    pure (Messages.select_logical_channel_ack success error_code tuner_id space channel)
  server_reader MessageType.get_channel_list_ack = need 12 do
    timestamp ← get get_i64_le
    count ← get get_u32_le
    channels ← reserving b.capacity count (decode_channels count)
    pure (Messages.get_channel_list_ack channels timestamp)
  server_reader MessageType.set_service_filter_ack = success_reader Messages.set_service_filter_ack
  server_reader MessageType.error = need 4 do
    error_code ← get get_u16_le
    msg_len ← get get_u16_le
    message ← text_of msg_len
    pure (Messages.error error_code message)
  server_reader t = fail (unknown_message_type (to_u16 t))

  unfoldable pub decode_server_message : MessageType → List ℕ → Result ServerMessage
  decode_server_message t payload = result (server_reader t payload)
