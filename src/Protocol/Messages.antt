-- ===== src/Protocol/Messages.antt =====
-- recisdb-protocol/src/types.rs: the messages. Numbers of width w are natural numbers below 2 ^ w, a
-- `String` its UTF-8 bytes, an `f32` its IEEE-754 bit pattern.
use recisdb_proxy_rs.Base.{ℕ, Bool, Option, List}
use recisdb_proxy_rs.Base.Ints.{ℤ}
use recisdb_proxy_rs.Protocol.Utf8.{Text}
use recisdb_proxy_rs.Protocol.MessageType.{MessageType}

pub data BroadcastType : Type 0 where
  terrestrial bs cs : BroadcastType

pub record ChannelFilter : Type 0 where
  pub nid : Option ℕ
  pub tsid : Option ℕ
  pub broadcast_type : Option BroadcastType
  pub enabled_only : Bool

pub record ClientChannelInfo : Type 0 where
  pub nid : ℕ
  pub sid : ℕ
  pub tsid : ℕ
  pub channel_name : Text
  pub network_name : Option Text
  pub service_type : ℕ
  pub remote_control_key : Option ℕ
  pub space_name : Text
  pub channel_display_name : Text
  pub priority : ℤ

pub data ClientMessage : Type 0 where
  hello : (version : ℕ) → ClientMessage
  ping : ClientMessage
  open_tuner : (tuner_path : Text) → ClientMessage
  open_tuner_with_group : (group_name : Text) → ClientMessage
  close_tuner : ClientMessage
  set_channel : (channel : ℕ) (priority : ℤ) (exclusive : Bool) → ClientMessage
  set_channel_space : (space channel : ℕ) (priority : ℤ) (exclusive : Bool) → ClientMessage
  set_channel_space_in_group :
      (group_name : Text) (space_idx channel : ℕ) (priority : ℤ) (exclusive : Bool) → ClientMessage
  get_signal_level : ClientMessage
  enum_tuning_space : (space : ℕ) → ClientMessage
  enum_channel_name : (space channel : ℕ) → ClientMessage
  start_stream : ClientMessage
  stop_stream : ClientMessage
  purge_stream : ClientMessage
  set_lnb_power : (enable : Bool) → ClientMessage
  select_logical_channel : (nid tsid : ℕ) (sid : Option ℕ) → ClientMessage
  get_channel_list : (filter : Option ChannelFilter) → ClientMessage
  set_service_filter : (single_service : Bool) → ClientMessage

pub data ServerMessage : Type 0 where
  hello_ack : (version : ℕ) (success : Bool) → ServerMessage
  pong : ServerMessage
  open_tuner_ack : (success : Bool) (error_code bondriver_version : ℕ) → ServerMessage
  close_tuner_ack : (success : Bool) → ServerMessage
  set_channel_ack : (success : Bool) (error_code : ℕ) → ServerMessage
  set_channel_space_ack : (success : Bool) (error_code : ℕ) → ServerMessage
  get_signal_level_ack : (signal_level : ℕ) → ServerMessage
  enum_tuning_space_ack : (name : Option Text) → ServerMessage
  enum_channel_name_ack : (name : Option Text) → ServerMessage
  start_stream_ack : (success : Bool) (error_code : ℕ) → ServerMessage
  stop_stream_ack : (success : Bool) → ServerMessage
  ts_data : (bytes : List ℕ) → ServerMessage
  purge_stream_ack : (success : Bool) → ServerMessage
  set_lnb_power_ack : (success : Bool) (error_code : ℕ) → ServerMessage
  select_logical_channel_ack :
      (success : Bool) (error_code : ℕ) (tuner_id : Option Text) (space channel : Option ℕ)
      → ServerMessage
  get_channel_list_ack : (channels : List ClientChannelInfo) (timestamp : ℤ) → ServerMessage
  set_service_filter_ack : (success : Bool) → ServerMessage
  error : (error_code : ℕ) (message : Text) → ServerMessage

unfoldable pub client_message_type : ClientMessage → MessageType
client_message_type (hello _) = MessageType.hello
client_message_type ping = MessageType.ping
client_message_type (open_tuner _) = MessageType.open_tuner
client_message_type (open_tuner_with_group _) = MessageType.open_tuner
client_message_type close_tuner = MessageType.close_tuner
client_message_type (set_channel _ _ _) = MessageType.set_channel
client_message_type (set_channel_space _ _ _ _) = MessageType.set_channel_space
client_message_type (set_channel_space_in_group _ _ _ _ _) = MessageType.set_channel_space
client_message_type get_signal_level = MessageType.get_signal_level
client_message_type (enum_tuning_space _) = MessageType.enum_tuning_space
client_message_type (enum_channel_name _ _) = MessageType.enum_channel_name
client_message_type start_stream = MessageType.start_stream
client_message_type stop_stream = MessageType.stop_stream
client_message_type purge_stream = MessageType.purge_stream
client_message_type (set_lnb_power _) = MessageType.set_lnb_power
client_message_type (select_logical_channel _ _ _) = MessageType.select_logical_channel
client_message_type (get_channel_list _) = MessageType.get_channel_list
client_message_type (set_service_filter _) = MessageType.set_service_filter

unfoldable pub server_message_type : ServerMessage → MessageType
server_message_type (hello_ack _ _) = MessageType.hello_ack
server_message_type pong = MessageType.pong
server_message_type (open_tuner_ack _ _ _) = MessageType.open_tuner_ack
server_message_type (close_tuner_ack _) = MessageType.close_tuner_ack
server_message_type (set_channel_ack _ _) = MessageType.set_channel_ack
server_message_type (set_channel_space_ack _ _) = MessageType.set_channel_space_ack
server_message_type (get_signal_level_ack _) = MessageType.get_signal_level_ack
server_message_type (enum_tuning_space_ack _) = MessageType.enum_tuning_space_ack
server_message_type (enum_channel_name_ack _) = MessageType.enum_channel_name_ack
server_message_type (start_stream_ack _ _) = MessageType.start_stream_ack
server_message_type (stop_stream_ack _) = MessageType.stop_stream_ack
server_message_type (ts_data _) = MessageType.ts_data
server_message_type (purge_stream_ack _) = MessageType.purge_stream_ack
server_message_type (set_lnb_power_ack _ _) = MessageType.set_lnb_power_ack
server_message_type (select_logical_channel_ack _ _ _ _ _) = MessageType.select_logical_channel_ack
server_message_type (get_channel_list_ack _ _) = MessageType.get_channel_list_ack
server_message_type (set_service_filter_ack _) = MessageType.set_service_filter_ack
server_message_type (error _ _) = MessageType.error
