-- ===== src/Protocol/MessageType.antt =====
-- recisdb-protocol/src/types.rs: the message type identifiers and their codes.
use recisdb_proxy_rs.Base.{ℕ, Option, none, some, if◌then◌else◌, ◌==◌}

pub data MessageType : Type 0 where
  hello hello_ack : MessageType
  open_tuner open_tuner_ack close_tuner close_tuner_ack : MessageType
  set_channel set_channel_ack set_channel_space set_channel_space_ack : MessageType
  get_signal_level get_signal_level_ack enum_tuning_space enum_tuning_space_ack : MessageType
  enum_channel_name enum_channel_name_ack : MessageType
  start_stream start_stream_ack stop_stream stop_stream_ack ts_data : MessageType
  purge_stream purge_stream_ack set_lnb_power set_lnb_power_ack : MessageType
  select_logical_channel select_logical_channel_ack : MessageType
  get_channel_list get_channel_list_ack set_service_filter set_service_filter_ack : MessageType
  error ping pong : MessageType

-- `value as u16`.
unfoldable pub to_u16 : MessageType → ℕ
to_u16 hello = 0x0001
to_u16 hello_ack = 0x0002
to_u16 open_tuner = 0x0100
to_u16 open_tuner_ack = 0x0101
to_u16 close_tuner = 0x0102
to_u16 close_tuner_ack = 0x0103
to_u16 set_channel = 0x0104
to_u16 set_channel_ack = 0x0105
to_u16 set_channel_space = 0x0106
to_u16 set_channel_space_ack = 0x0107
to_u16 get_signal_level = 0x0200
to_u16 get_signal_level_ack = 0x0201
to_u16 enum_tuning_space = 0x0202
to_u16 enum_tuning_space_ack = 0x0203
to_u16 enum_channel_name = 0x0204
to_u16 enum_channel_name_ack = 0x0205
to_u16 start_stream = 0x0300
to_u16 start_stream_ack = 0x0301
to_u16 stop_stream = 0x0302
to_u16 stop_stream_ack = 0x0303
to_u16 ts_data = 0x0304
to_u16 purge_stream = 0x0306
to_u16 purge_stream_ack = 0x0307
to_u16 set_lnb_power = 0x0400
to_u16 set_lnb_power_ack = 0x0401
to_u16 select_logical_channel = 0x0500
to_u16 select_logical_channel_ack = 0x0501
to_u16 get_channel_list = 0x0502
to_u16 get_channel_list_ack = 0x0503
to_u16 set_service_filter = 0x0504
to_u16 set_service_filter_ack = 0x0505
to_u16 error = 0xFF00
to_u16 ping = 0xFF01
to_u16 pong = 0xFF02

-- `MessageType::try_from`; its error is the value itself, so `none` stands for it. The arms of the
-- source's match, in its order.
unfoldable pub try_from : ℕ → Option MessageType
try_from value =
    if value == 0x0001
    then some hello
    else if value == 0x0002
    then some hello_ack
    else if value == 0x0100
    then some open_tuner
    else if value == 0x0101
    then some open_tuner_ack
    else if value == 0x0102
    then some close_tuner
    else if value == 0x0103
    then some close_tuner_ack
    else if value == 0x0104
    then some set_channel
    else if value == 0x0105
    then some set_channel_ack
    else if value == 0x0106
    then some set_channel_space
    else if value == 0x0107
    then some set_channel_space_ack
    else if value == 0x0200
    then some get_signal_level
    else if value == 0x0201
    then some get_signal_level_ack
    else if value == 0x0202
    then some enum_tuning_space
    else if value == 0x0203
    then some enum_tuning_space_ack
    else if value == 0x0204
    then some enum_channel_name
    else if value == 0x0205
    then some enum_channel_name_ack
    else if value == 0x0300
    then some start_stream
    else if value == 0x0301
    then some start_stream_ack
    else if value == 0x0302
    then some stop_stream
    else if value == 0x0303
    then some stop_stream_ack
    else if value == 0x0304
    then some ts_data
    else if value == 0x0306
    then some purge_stream
    else if value == 0x0307
    then some purge_stream_ack
    else if value == 0x0400
    then some set_lnb_power
    else if value == 0x0401
    then some set_lnb_power_ack
    else if value == 0x0500
    then some select_logical_channel
    else if value == 0x0501
    then some select_logical_channel_ack
    else if value == 0x0502
    then some get_channel_list
    else if value == 0x0503
    then some get_channel_list_ack
    else if value == 0x0504
    then some set_service_filter
    else if value == 0x0505
    then some set_service_filter_ack
    else if value == 0xFF00
    then some error
    else if value == 0xFF01
    then some ping
    else if value == 0xFF02
    then some pong
    else none
