-- ===== src/Protocol/InRange.antt =====
-- The messages that a Rust value can be and that the wire format can carry: numbers of their width,
-- strings in UTF-8 whose length fits its 16-bit prefix.
use recisdb_proxy_rs.Base.{ℕ, ◌<◌, ◌≢◌, Option, none, some, [], All, length}
use recisdb_proxy_rs.Base.Ints.{half32, half64, Fits}
use recisdb_proxy_rs.Protocol.Utf8.{Text, IsUtf8}
use recisdb_proxy_rs.Protocol.Messages.{
  ChannelFilter, ClientChannelInfo, ClientMessage, ServerMessage,
}
use recisdb_proxy_rs.Protocol.Messages

abbrev pub IsU8 : ℕ → Type 0
IsU8 x = x < 256

abbrev pub IsU16 : ℕ → Type 0
IsU16 x = x < 65536

abbrev pub IsU32 : ℕ → Type 0
IsU32 x = x < 4294967296

abbrev pub IsShort : Text → Type 0
IsShort s = IsUtf8 s × (length s < 65536)

-- 0xFFFF is the mark of a missing string, so it is no length.
abbrev pub IsShortOptional : Option Text → Type 0
IsShortOptional none = Unit {0}
IsShortOptional (some s) = IsUtf8 s × (length s < 65535)

abbrev pub OnSome : (ℕ → Type 0) → Option ℕ → Type 0
OnSome P none = Unit {0}
OnSome P (some x) = P x

pub record IsFilter (f : ChannelFilter) : Type 0 where
  pub nid_in : OnSome IsU16 f.nid
  pub tsid_in : OnSome IsU16 f.tsid

abbrev pub IsOptionalFilter : Option ChannelFilter → Type 0
IsOptionalFilter none = Unit {0}
IsOptionalFilter (some f) = IsFilter f

pub record IsChannel (ch : ClientChannelInfo) : Type 0 where
  pub nid_in : IsU16 ch.nid
  pub sid_in : IsU16 ch.sid
  pub tsid_in : IsU16 ch.tsid
  pub channel_name_in : IsShort ch.channel_name
  pub network_name_in : IsShortOptional ch.network_name
  pub service_type_in : IsU8 ch.service_type
  pub remote_control_key_in : OnSome IsU8 ch.remote_control_key
  pub space_name_in : IsShort ch.space_name
  pub channel_display_name_in : IsShort ch.channel_display_name
  pub priority_in : Fits half32 ch.priority

-- The two messages that name a group are left out: they share a type code with another message.
abbrev pub InRange : ClientMessage → Type 0
InRange (Messages.hello version) = IsU16 version
InRange (Messages.open_tuner tuner_path) = IsShort tuner_path × (tuner_path ≢ [])
InRange (Messages.open_tuner_with_group _) = ⊥
InRange (Messages.set_channel channel priority _) = IsU8 channel × Fits half32 priority
InRange (Messages.set_channel_space space channel priority _) =
    IsU32 space × IsU32 channel × Fits half32 priority
InRange (Messages.set_channel_space_in_group _ _ _ _ _) = ⊥
InRange (Messages.enum_tuning_space space) = IsU32 space
InRange (Messages.enum_channel_name space channel) = IsU32 space × IsU32 channel
InRange (Messages.select_logical_channel nid tsid sid) = IsU16 nid × IsU16 tsid × OnSome IsU16 sid
InRange (Messages.get_channel_list filter) = IsOptionalFilter filter
InRange _ = Unit {0}

abbrev pub ServerInRange : ServerMessage → Type 0
ServerInRange (Messages.hello_ack version _) = IsU16 version
ServerInRange (Messages.open_tuner_ack _ error_code bondriver_version) =
    IsU16 error_code × IsU8 bondriver_version
ServerInRange (Messages.set_channel_ack _ error_code) = IsU16 error_code
ServerInRange (Messages.set_channel_space_ack _ error_code) = IsU16 error_code
ServerInRange (Messages.get_signal_level_ack signal_level) = IsU32 signal_level
ServerInRange (Messages.enum_tuning_space_ack name) = IsShortOptional name
ServerInRange (Messages.enum_channel_name_ack name) = IsShortOptional name
ServerInRange (Messages.start_stream_ack _ error_code) = IsU16 error_code
ServerInRange (Messages.set_lnb_power_ack _ error_code) = IsU16 error_code
ServerInRange (Messages.select_logical_channel_ack _ error_code tuner_id space channel) =
    IsU16 error_code × IsShortOptional tuner_id × OnSome IsU32 space × OnSome IsU32 channel
ServerInRange (Messages.get_channel_list_ack channels timestamp) =
    All IsChannel channels × IsU32 (length channels) × Fits half64 timestamp
ServerInRange (Messages.error error_code message) = IsU16 error_code × IsShort message
ServerInRange _ = Unit {0}
