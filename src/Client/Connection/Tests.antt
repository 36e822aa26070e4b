-- ===== src/Client/Connection/Tests.antt =====
-- A connection whose first answer came too late, and one that streams.
use recisdb_proxy_rs.Base.{◌≡◌, refl, true, false, none, some, List, [], ◌∷◌}
use recisdb_proxy_rs.Base.Ints.{pos}
use recisdb_proxy_rs.Protocol.Messages
use recisdb_proxy_rs.Protocol.Messages.{ClientMessage, ServerMessage}
use recisdb_proxy_rs.Client.RingBuffer
use recisdb_proxy_rs.Client.Connection
use recisdb_proxy_rs.Client.Connection.{ConnectionConfig, Connection, tuner_open}
use recisdb_proxy_rs.Client.Connection.Order.{exchange_all, exchange_all-in_order, in_time}
use recisdb_proxy_rs.Client.Connection.Calls.{Call, connects, opens, starts, step, run}
use recisdb_proxy_rs.Client.Connection.Streaming.{is_streaming, streams, run-streaming}

abbrev config : ConnectionConfig
config = record {
  tuner_path = b'/' ∷ b'd' ∷ [];
  client_priority = pos 10;
  client_exclusive = false;
  single_service = false;
}

-- The answer to a request for the signal level waits, which timed out.
abbrev late : Connection
late = record {
  config = config;
  state = tuner_open;
  buffer = RingBuffer.new;
  opened = true;
  responses = Messages.get_signal_level_ack 7 ∷ [];
  sent = Messages.get_signal_level ∷ [];
  bondriver_version = 2;
  signal_level = 0;
  fetched_at = none;
}

abbrev two_requests : List (ClientMessage × ServerMessage)
two_requests =
    (Messages.start_stream, Messages.start_stream_ack true 0)
    ∷ (Messages.purge_stream, Messages.purge_stream_ack true)
    ∷ []

exchange_all-in_order_example :
    exchange_all two_requests late
    ≡ some (Messages.get_signal_level_ack 7) ∷ some (Messages.start_stream_ack true 0) ∷ []
exchange_all-in_order_example = exchange_all-in_order two_requests late refl

abbrev to_stream : List Call
to_stream =
    connects (in_time (Messages.hello_ack 1 true)) (in_time Messages.pong)
    ∷ opens (in_time (Messages.open_tuner_ack true 0 2))
    ∷ starts (in_time (Messages.start_stream_ack true 0))
    ∷ []

now_streaming : is_streaming (run to_stream (Connection.new config)).state ≡ true
unfolding run step Connection.start_stream Connection.open_tuner Connection.connect Connection.new
now_streaming = refl

run-streaming_example : streams false (run to_stream (Connection.new config)).sent ≡ true
run-streaming_example = run-streaming config to_stream now_streaming
