-- ===== src/Client/Connection.antt =====
-- bondriver-proxy-client/src/client/connection.rs: the calls that the BonDriver functions make. What
-- the other tasks do while a call waits is its argument: whether the request's channel takes the
-- message, and the responses that come before the timeout.
pub mod Order
pub mod Calls
pub mod Streaming
mod Tests
use recisdb_proxy_rs.Base.{
  ℕ, ◌+◌, ◌-◌, Bool, true, false, ◌&&◌, ◌||◌, Option, none, some, List, [], ◌∷◌, ◌++◌, ltb,
  if◌then◌else◌,
}
use recisdb_proxy_rs.Base.Ints.{ℤ}
use recisdb_proxy_rs.Protocol.Utf8.{Text}
use recisdb_proxy_rs.Protocol.Messages
use recisdb_proxy_rs.Protocol.Messages.{ClientMessage, ServerMessage}
use recisdb_proxy_rs.Client.RingBuffer.{TsRingBuffer}
use recisdb_proxy_rs.Client.RingBuffer

pub data ConnectionState : Type 0 where
  disconnected connecting connected tuner_open streaming error : ConnectionState

abbrev pub protocol_version : ℕ
protocol_version = 1

pub record ConnectionConfig : Type 0 where
  pub tuner_path : Text
  pub client_priority : ℤ
  pub client_exclusive : Bool
  pub single_service : Bool

-- `opened` says that both channels are there, `responses` are those that wait in `response_rx`, and
-- `sent` the requests that the channel took. Times are in milliseconds.
pub record Connection : Type 0 where
  pub config : ConnectionConfig
  pub state : ConnectionState
  pub buffer : TsRingBuffer
  pub opened : Bool
  pub responses : List ServerMessage
  pub sent : List ClientMessage
  pub bondriver_version : ℕ
  pub signal_level : ℕ
  pub fetched_at : Option ℕ

pub record Exchange : Type 0 where
  pub accepted : Bool
  pub arrivals : List ServerMessage

unfoldable pub new : ConnectionConfig → Connection
new config = record {
  config = config;
  state = disconnected;
  buffer = RingBuffer.new;
  opened = false;
  responses = [];
  sent = [];
  bondriver_version = 0;
  signal_level = 0;
  fetched_at = none;
}

-- `recv_timeout`: the first response that is there.
unfoldable pub receive : List ServerMessage → Connection → Option ServerMessage × Connection
receive [] c = (none, record c { responses = [] })
receive (r ∷ rs) c = (some r, record c { responses = rs })

unfoldable pub send_request :
    ClientMessage → Exchange → Connection → Option ServerMessage × Connection
unfolding receive
send_request msg x c =
    if c.opened && x.accepted
    then receive (c.responses ++ x.arrivals) (record c { sent = c.sent ++ msg ∷ [] })
    else (none, c)

-- The arms on a response, for each request.
unfoldable pub hello_accepted : Option ServerMessage → Bool
hello_accepted (some (Messages.hello_ack version success)) = success
hello_accepted _ = false

unfoldable pub set_channel_accepted : Option ServerMessage → Bool
set_channel_accepted (some (Messages.set_channel_ack success error_code)) = success
set_channel_accepted _ = false

unfoldable pub set_channel_space_accepted : Option ServerMessage → Bool
set_channel_space_accepted (some (Messages.set_channel_space_ack success error_code)) = success
set_channel_space_accepted _ = false

unfoldable pub start_accepted : Option ServerMessage → Bool
start_accepted (some (Messages.start_stream_ack success error_code)) = success
start_accepted _ = false

unfoldable pub lnb_accepted : Option ServerMessage → Bool
lnb_accepted (some (Messages.set_lnb_power_ack success error_code)) = success
lnb_accepted _ = false

unfoldable pub space_name : Option ServerMessage → Option Text
space_name (some (Messages.enum_tuning_space_ack name)) = name
space_name _ = none

unfoldable pub channel_name : Option ServerMessage → Option Text
channel_name (some (Messages.enum_channel_name_ack name)) = name
channel_name _ = none

-- `connect`, from the created channels on, where the runtime can be made. Its two exchanges are the
-- handshake and the request for a single service.
unfoldable pub connect_fresh : Exchange → Exchange → Connection → Bool × Connection
unfolding send_request hello_accepted
connect_fresh hello filter c =
    let shaken =
      send_request (Messages.hello protocol_version) hello
        (record c { state = connecting; opened = true; responses = [] }) in
    let filtered =
      if c.config.single_service
      then (send_request (Messages.set_service_filter true) filter shaken.1).1
      else shaken.1 in
    if hello_accepted shaken.0
    then (true, record filtered { state = connected })
    else (false, record (shaken.1) { state = error })

unfoldable pub connect_from : ConnectionState → Exchange → Exchange → Connection → Bool × Connection
unfolding connect_fresh
connect_from disconnected hello filter c = connect_fresh hello filter c
connect_from _ hello filter c = (false, c)

unfoldable pub connect : Exchange → Exchange → Connection → Bool × Connection
unfolding connect_from
connect hello filter c = connect_from c.state hello filter c

unfoldable pub disconnect : Connection → Connection
disconnect c = record c {
  opened = false;
  responses = [];
  buffer = RingBuffer.clear c.buffer;
  state = disconnected;
}

unfoldable pub opened_result : Option ServerMessage × Connection → Bool × Connection
opened_result (some (Messages.open_tuner_ack true error_code version), c) =
    (true, record c { bondriver_version = version; state = tuner_open })
opened_result (_, c) = (false, c)

unfoldable pub may_open : ConnectionState → Bool
may_open connected = true
may_open tuner_open = true
may_open _ = false

unfoldable pub open_tuner : Exchange → Connection → Bool × Connection
unfolding may_open opened_result send_request
open_tuner x c =
    if may_open c.state
    then opened_result (send_request (Messages.open_tuner c.config.tuner_path) x c)
    else (false, c)

unfoldable pub stop_from : ConnectionState → Exchange → Connection → Connection
unfolding send_request
stop_from streaming x c = record (send_request Messages.stop_stream x c).1 { state = tuner_open }
stop_from _ x c = c

unfoldable pub stop_stream : Exchange → Connection → Connection
unfolding stop_from
stop_stream x c = stop_from c.state x c

unfoldable pub close_tuner : Exchange → Exchange → Connection → Connection
unfolding stop_stream send_request
close_tuner stop x c = record (send_request Messages.close_tuner x (stop_stream stop c)).1 {
  state = connected;
}

unfoldable pub set_channel : ℕ → Exchange → Connection → Bool × Connection
unfolding send_request set_channel_accepted
set_channel channel x c =
    let r =
      send_request (Messages.set_channel channel c.config.client_priority c.config.client_exclusive)
        x c in
    (set_channel_accepted r.0, r.1)

unfoldable pub set_channel_space : ℕ → ℕ → ℤ → Bool → Exchange → Connection → Bool × Connection
unfolding send_request set_channel_space_accepted
set_channel_space space channel priority exclusive x c =
    let r = send_request (Messages.set_channel_space space channel priority exclusive) x c in
    (set_channel_space_accepted r.0, r.1)

-- The cached level, until it is two seconds old.
unfoldable pub is_fresh : ℕ → Option ℕ → Bool
is_fresh now none = false
is_fresh now (some fetched_at) = ltb (now - fetched_at) 2000

unfoldable pub level_result : ℕ → Option ServerMessage × Connection → ℕ × Connection
level_result now (some (Messages.get_signal_level_ack level), c) =
    (level, record c { signal_level = level; fetched_at = some now })
level_result now (_, c) = (c.signal_level, c)

unfoldable pub get_signal_level : ℕ → Exchange → Connection → ℕ × Connection
unfolding is_fresh level_result send_request
get_signal_level now x c =
    if is_fresh now c.fetched_at
    then (c.signal_level, c)
    else level_result now (send_request Messages.get_signal_level x c)

unfoldable pub start_from : ConnectionState → Exchange → Connection → Bool × Connection
unfolding send_request start_accepted
start_from tuner_open x c =
    let r = send_request Messages.start_stream x c in
    if start_accepted r.0 then (true, record (r.1) { state = streaming }) else (false, r.1)
start_from _ x c = (false, c)

unfoldable pub start_stream : Exchange → Connection → Bool × Connection
unfolding start_from
start_stream x c = start_from c.state x c

unfoldable pub purge_stream : Exchange → Connection → Connection
unfolding send_request
purge_stream x c =
    (send_request Messages.purge_stream x (record c { buffer = RingBuffer.clear c.buffer })).1

unfoldable pub enum_tuning_space : ℕ → Exchange → Connection → Option Text × Connection
unfolding send_request space_name
enum_tuning_space space x c =
    let r = send_request (Messages.enum_tuning_space space) x c in (space_name r.0, r.1)

unfoldable pub enum_channel_name : ℕ → ℕ → Exchange → Connection → Option Text × Connection
unfolding send_request channel_name
enum_channel_name space channel x c =
    let r = send_request (Messages.enum_channel_name space channel) x c in (channel_name r.0, r.1)

unfoldable pub set_lnb_power : Bool → Exchange → Connection → Bool × Connection
unfolding send_request lnb_accepted
set_lnb_power enable x c =
    let r = send_request (Messages.set_lnb_power enable) x c in (lnb_accepted r.0, r.1)
