-- ===== src/Session/Handlers.antt =====
-- recisdb-proxy/src/server/session.rs: the handlers that start and stop a stream, with the session's
-- share of the tuner pool. The writer task is whether it is there, and what it was sent; the replies are
-- short and encode. Metrics, the registry of sessions, the database, the warm tuner and the tsreplace
-- process are left out; whether that process starts is an argument.
pub mod Counts
mod Balance
mod Faults
mod Tests
use recisdb_proxy_rs.Base.{
  ℕ, ◌-◌, Bool, true, false, not, ◌||◌, Option, none, some, List, [], ◌∷◌, ◌++◌, ◌==◌,
  if◌then◌else◌, Outcome, ok, err,
}
use recisdb_proxy_rs.Protocol.Messages.{
  ServerMessage, hello_ack, pong, close_tuner_ack, start_stream_ack, stop_stream_ack,
  purge_stream_ack, set_lnb_power_ack, set_service_filter_ack, error,
}
use recisdb_proxy_rs.Ts.Filter.{TsServiceFilter}
use recisdb_proxy_rs.Tuner.Pool.{TunerPool, subscribe, unsubscribe}
use recisdb_proxy_rs.Tuner.Pool.Idle.{cancel_idle_close, schedule_idle_close}

pub data SessionState : Type 0 where
  initial ready tuner_open streaming closing : SessionState

-- The writer task is gone.
pub data IoError : Type 0 where
  broken_pipe : IoError

-- `current_tuner` is the tuner's `Arc`, `ts_receiver` whether there is one, `writer_open` whether the
-- receivers of the writer's channels are there, `sent` what it was given.
pub record ClientSession : Type 0 where
  pub state : SessionState
  pub current_tuner : Option ℕ
  pub ts_receiver : Bool
  pub writer_open : Bool
  pub sent : List ServerMessage
  pub tsreplace_passthrough_on_error : Bool
  pub single_service_filter_enabled : Bool
  pub ts_service_filter : Option TsServiceFilter

-- A session and the pool that it shares with the others.
pub record Served : Type 0 where
  pub session : ClientSession
  pub pool : TunerPool

abbrev pub Reply : Type 0
Reply = Served × Outcome IoError Unit

abbrev pub protocol_version : ℕ
protocol_version = 1

-- The codes of `ErrorCode::TunerOpenFailed` and `ErrorCode::InvalidState`.
abbrev pub tuner_open_failed : ℕ
tuner_open_failed = 0x0002

abbrev pub invalid_state : ℕ
invalid_state = 0x0006

unfoldable pub is_tuner_open : SessionState → Bool
is_tuner_open tuner_open = true
is_tuner_open _ = false

unfoldable pub send_message : ServerMessage → Served → Reply
send_message msg w =
    let s = w.session in
    if s.writer_open
    then (record w { session = record s { sent = s.sent ++ msg ∷ [] } }, ok tt)
    else (w, err broken_pipe)

-- Each handler is what it changes, then its reply.
unfoldable pub greet : Bool → Served → Served
greet true w = record w { session = record w.session { state = ready } }
greet false w = w

unfoldable pub handle_hello : ℕ → Served → Reply
unfolding send_message greet
handle_hello version w =
    let success = version == protocol_version in
    send_message (hello_ack protocol_version success) (greet success w)

-- "Tuner not open".
abbrev pub not_open : List ℕ
not_open = 84 ∷ 117 ∷ 110 ∷ 101 ∷ 114 ∷ 32 ∷ 110 ∷ 111 ∷ 116 ∷ 32 ∷ 111 ∷ 112 ∷ 101 ∷ 110 ∷ []

-- `start_stream` up to the tsreplace process.
unfoldable pub begin_stream : ℕ → Served → Served
unfolding subscribe cancel_idle_close
begin_stream a w = record {
  session = record w.session { ts_receiver = true; state = streaming };
  pool = subscribe a (cancel_idle_close (w.pool.arcs a).key w.pool);
}

-- The branch in which that process does not start and the raw stream is not wanted.
unfoldable pub abort_stream : ℕ → Served → Served
unfolding unsubscribe
abort_stream a w = record {
  session = record w.session { ts_receiver = false; state = tuner_open };
  pool = unsubscribe a w.pool;
}

unfoldable pub start_with : Bool → Option ℕ → Served → Reply
unfolding begin_stream abort_stream send_message
start_with started none w = send_message (start_stream_ack false invalid_state) w
start_with started (some a) w =
    if started || w.session.tsreplace_passthrough_on_error
    then send_message (start_stream_ack true 0) (begin_stream a w)
    else send_message (start_stream_ack false tuner_open_failed) (abort_stream a (begin_stream a w))

unfoldable pub handle_start_stream : Bool → Served → Reply
unfolding start_with is_tuner_open send_message
handle_start_stream started w =
    if is_tuner_open w.session.state
    then start_with started w.session.current_tuner w
    else send_message (error invalid_state not_open) w

-- `if tuner.subscriber_count() == 0 { schedule_idle_close }`.
unfoldable pub close_if_idle : ℕ → TunerPool → TunerPool
unfolding schedule_idle_close
close_if_idle a p =
    if (p.arcs a).subscriber_count == 0 then schedule_idle_close (p.arcs a).key a p else p

unfoldable pub release : Bool → Option ℕ → TunerPool → TunerPool
unfolding close_if_idle unsubscribe
release true (some a) p = close_if_idle a (unsubscribe a p)
release true none p = p
release false tuner p = p

unfoldable pub stop : Served → Served
unfolding release
stop w =
    let s = w.session in
    record {
      session = record s { ts_receiver = false; state = tuner_open };
      pool = release s.ts_receiver s.current_tuner w.pool;
    }

unfoldable pub handle_stop_stream : Served → Reply
unfolding stop send_message
handle_stop_stream w = send_message (stop_stream_ack true) (stop w)

-- Draining the receiver changes nothing that is modelled.
unfoldable pub handle_purge_stream : Served → Reply
unfolding send_message
handle_purge_stream w = send_message (purge_stream_ack true) w

unfoldable pub handle_set_lnb_power : Served → Reply
unfolding send_message
handle_set_lnb_power w = send_message (set_lnb_power_ack true 0) w

unfoldable pub set_filter : Bool → Served → Served
set_filter single_service w =
    let s = w.session in
    let kept = if single_service then s.ts_service_filter else none in
    record w {
      session = record s {
        single_service_filter_enabled = single_service;
        ts_service_filter = kept;
      };
    }

unfoldable pub handle_set_service_filter : Bool → Served → Reply
unfolding set_filter send_message
handle_set_service_filter single_service w =
    send_message (set_service_filter_ack true) (set_filter single_service w)

-- What `cleanup` does to the pool: a tuner that nobody is subscribed to is closed later.
unfoldable pub leave : Bool → Option ℕ → TunerPool → TunerPool
unfolding close_if_idle unsubscribe
leave receiving none p = p
leave true (some a) p = close_if_idle a (unsubscribe a p)
leave false (some a) p = close_if_idle a p

-- The senders of the writer's channels are replaced by senders without a receiver.
unfoldable pub cleanup : Served → Served
unfolding leave
cleanup w =
    let s = w.session in
    record {
      session = record s { writer_open = false; current_tuner = none; ts_receiver = false };
      pool = leave s.ts_receiver s.current_tuner w.pool;
    }

unfoldable pub close : Served → Served
unfolding cleanup
close w = let w' = cleanup w in record w' { session = record w'.session { state = ready } }

unfoldable pub handle_close_tuner : Served → Reply
unfolding close send_message
handle_close_tuner w = send_message (close_tuner_ack true) (close w)

-- The messages with these handlers, with what happens outside.
pub data Request : Type 0 where
  hello : ℕ → Request
  ping : Request
  start_stream : (started : Bool) → Request
  stop_stream purge_stream set_lnb_power close_tuner : Request
  set_service_filter : Bool → Request

-- `handle_message`.
unfoldable pub handle_message : Request → Served → Reply
unfolding handle_hello handle_start_stream handle_stop_stream handle_purge_stream
    handle_set_lnb_power handle_set_service_filter handle_close_tuner send_message
handle_message (hello version) w = handle_hello version w
handle_message ping w = send_message pong w
handle_message (start_stream started) w = handle_start_stream started w
handle_message stop_stream w = handle_stop_stream w
handle_message purge_stream w = handle_purge_stream w
handle_message set_lnb_power w = handle_set_lnb_power w
handle_message close_tuner w = handle_close_tuner w
handle_message (set_service_filter single_service) w = handle_set_service_filter single_service w
