-- ===== src/Client/Connection/Streaming.antt =====
-- The state that the client goes by, and the stream commands that it has sent.
use recisdb_proxy_rs.Base.{
  ℕ, ◌≡◌, refl, sym, ap, ◌∙◌, Bool, true, false, ◌&&◌, Bool-cases, inl, inr, Option, none, some,
  List, [], ◌∷◌, ◌++◌, if◌then◌else◌,
}
use recisdb_proxy_rs.Protocol.Messages
use recisdb_proxy_rs.Protocol.Messages.{ClientMessage, ServerMessage}
use recisdb_proxy_rs.Client.RingBuffer
use recisdb_proxy_rs.Client.Connection.Calls.{
  Call, connects, disconnects, opens, closes, sets_channel, sets_channel_space, gets_signal_level,
  starts, stops, purges, enums_space, enums_channel, sets_lnb, step, run,
}
use recisdb_proxy_rs.Client.Connection
use recisdb_proxy_rs.Client.Connection.{
  ConnectionState, connected, tuner_open, streaming, disconnected, ConnectionConfig, Connection,
  Exchange, receive, send_request, hello_accepted, start_accepted, connect, disconnect,
  opened_result, open_tuner, stop_stream, close_tuner, set_channel, set_channel_space, connect_from,
  connect_fresh, stop_from, start_from, is_fresh, may_open, protocol_version, connecting,
  level_result, get_signal_level, start_stream, purge_stream, enum_tuning_space, enum_channel_name,
  set_lnb_power,
}

-- Whether the commands sent so far leave the server streaming, as far as they go.
abbrev pub commanded : ClientMessage → Bool → Bool
commanded Messages.start_stream s = true
commanded Messages.stop_stream s = false
commanded Messages.close_tuner s = false
commanded _ s = s

abbrev pub streams : Bool → List ClientMessage → Bool
streams s [] = s
streams s (msg ∷ msgs) = streams (commanded msg s) msgs

streams-append :
    (s : Bool) (msgs : List ClientMessage) (msg : ClientMessage)
    → streams s (msgs ++ msg ∷ []) ≡ commanded msg (streams s msgs)
streams-append s [] msg = refl
streams-append s (m ∷ msgs) msg = streams-append (commanded m s) msgs msg

abbrev pub is_streaming : ConnectionState → Bool
is_streaming streaming = true
is_streaming _ = false

pub record Inv (c : Connection) : Type 0 where
  pub started : is_streaming c.state ≡ true → streams false c.sent ≡ true

-- A call that changes neither of the two.
record Keeps (c d : Connection) : Type 0 where
  same_state : d.state ≡ c.state
  same_streams : streams false d.sent ≡ streams false c.sent

receive-Keeps : (rs : List ServerMessage) (c d : Connection) → Keeps c d → Keeps c (receive rs d).1
unfolding receive
receive-Keeps [] c d k = record { same_state = k.same_state; same_streams = k.same_streams }
receive-Keeps (r ∷ rs) c d k = record { same_state = k.same_state; same_streams = k.same_streams }

-- A message that is no stream command.
abbrev IsNeutral : ClientMessage → Type 0
IsNeutral msg = (s : Bool) → commanded msg s ≡ s

send_request-Keeps :
    (msg : ClientMessage) (x : Exchange) (c : Connection)
    → IsNeutral msg
    → Keeps c (send_request msg x c).1
unfolding send_request
send_request-Keeps msg x c h = go (c.opened && x.accepted)
  where
    go :
        (t : Bool)
        → let r : Option ServerMessage × Connection =
            if t
            then receive (c.responses ++ x.arrivals) (record c { sent = c.sent ++ msg ∷ [] })
            else (none, c) in
          Keeps c r.1
    go true =
        receive-Keeps (c.responses ++ x.arrivals) c (record c { sent = c.sent ++ msg ∷ [] })
          (record {
            same_state = refl;
            same_streams = streams-append false c.sent msg ∙ h (streams false c.sent);
          })
    go false = record { same_state = refl; same_streams = refl }

Keeps-Inv : {c d : Connection} → Keeps c d → Inv c → Inv d
Keeps-Inv k v = record {
  started = λ s. k.same_streams ∙ v.started (ap is_streaming (sym k.same_state) ∙ s);
}

-- A state that is not streaming asks for nothing.
idle-Inv : (c : Connection) → is_streaming c.state ≡ false → Inv c
idle-Inv c h = record { started = λ s. cc }

opened_result-Inv :
    (r : Option ServerMessage) (d : Connection) → Inv d → Inv (opened_result (r, d)).1
unfolding opened_result
opened_result-Inv none d v = v
opened_result-Inv (some (Messages.open_tuner_ack true error_code version)) d v = idle-Inv _ refl
opened_result-Inv (some (Messages.open_tuner_ack false error_code version)) d v = v
opened_result-Inv (some Messages.pong) d v = v
opened_result-Inv (some msg) d v = v

level_result-Inv :
    (now : ℕ) (r : Option ServerMessage) (d : Connection) → Inv d → Inv (level_result now (r, d)).1
unfolding level_result
level_result-Inv now none d v = v
level_result-Inv now (some (Messages.get_signal_level_ack level)) d v = record {
  started = v.started;
}
level_result-Inv now (some Messages.pong) d v = v
level_result-Inv now (some msg) d v = v

connect_from-Inv :
    (s : ConnectionState) (hello filter : Exchange) (c : Connection)
    → Inv c
    → Inv (connect_from s hello filter c).1
unfolding connect_from connect_fresh
connect_from-Inv disconnected hello filter c v =
    let r =
      (send_request (Messages.hello protocol_version) hello
        (record c { state = connecting; opened = true; responses = [] })).0 in
    elim (Bool-cases (hello_accepted r)) [
      | inl shaken ↦ rw shaken (idle-Inv _ refl)
      | inr refused ↦ rw refused (idle-Inv _ refl)
    ]
connect_from-Inv streaming hello filter c v = v
connect_from-Inv _ hello filter c v = v

start_stream-sent :
    (x : Exchange) (c : Connection)
    → start_accepted (send_request Messages.start_stream x c).0 ≡ true
    → streams false (send_request Messages.start_stream x c).1.sent ≡ true
unfolding send_request receive start_accepted
start_stream-sent x c = go (c.opened && x.accepted)
  where
    took :
        (rs : List ServerMessage) (d : Connection)
        → streams false d.sent ≡ true
        → streams false (receive rs d).1.sent ≡ true
    took [] d h = h
    took (r ∷ rs) d h = h

    go :
        (t : Bool)
        → let r : Option ServerMessage × Connection =
            if t
            then receive
                (c.responses ++ x.arrivals)
                (record c { sent = c.sent ++ Messages.start_stream ∷ [] })
            else (none, c) in
          start_accepted r.0 ≡ true → streams false r.1.sent ≡ true
    go true h =
        took (c.responses ++ x.arrivals) (record c { sent = c.sent ++ Messages.start_stream ∷ [] })
          (streams-append false c.sent Messages.start_stream)
    go false h = cc

start_stream-Inv :
    (x : Exchange) (c : Connection) → Inv c → Inv (send_request Messages.start_stream x c).1
unfolding send_request receive
start_stream-Inv x c v = go (c.opened && x.accepted)
  where
    took :
        (rs : List ServerMessage) (d : Connection)
        → streams false d.sent ≡ true
        → Inv (receive rs d).1
    took [] d h = record { started = λ s. h }
    took (r ∷ rs) d h = record { started = λ s. h }

    go :
        (t : Bool)
        → let r : Option ServerMessage × Connection =
            if t
            then receive
                (c.responses ++ x.arrivals)
                (record c { sent = c.sent ++ Messages.start_stream ∷ [] })
            else (none, c) in
          Inv r.1
    go true =
        took (c.responses ++ x.arrivals) (record c { sent = c.sent ++ Messages.start_stream ∷ [] })
          (streams-append false c.sent Messages.start_stream)
    go false = v

start_from-Inv :
    (s : ConnectionState) (x : Exchange) (c : Connection) → Inv c → Inv (start_from s x c).1
unfolding start_from
start_from-Inv tuner_open x c v =
    elim (Bool-cases (start_accepted (send_request Messages.start_stream x c).0)) [
      | inl done ↦ rw done (record { started = λ s. start_stream-sent x c done })
      | inr not_done ↦ rw not_done (start_stream-Inv x c v)
    ]
start_from-Inv streaming x c v = v
start_from-Inv _ x c v = v

stop_from-Inv :
    (s : ConnectionState) (x : Exchange) (c : Connection) → Inv c → Inv (stop_from s x c)
unfolding stop_from
stop_from-Inv streaming x c v = idle-Inv _ refl
stop_from-Inv disconnected x c v = v
stop_from-Inv _ x c v = v

get_signal_level-Inv :
    (now : ℕ) (x : Exchange) (c : Connection) → Inv c → Inv (get_signal_level now x c).1
unfolding get_signal_level
get_signal_level-Inv now x c v =
    let r = send_request Messages.get_signal_level x c in
    elim (Bool-cases (is_fresh now c.fetched_at)) [
      | inl fresh ↦ rw fresh v
      | inr stale ↦ rw stale (
          level_result-Inv now r.0 r.1
            (Keeps-Inv (send_request-Keeps Messages.get_signal_level x c (λ s. refl)) v))
    ]

open_tuner-Inv : (x : Exchange) (c : Connection) → Inv c → Inv (open_tuner x c).1
unfolding open_tuner
open_tuner-Inv x c v =
    let msg = Messages.open_tuner c.config.tuner_path in
    elim (Bool-cases (may_open c.state)) [
      | inl may ↦ rw may (
          opened_result-Inv (send_request msg x c).0 (send_request msg x c).1
            (Keeps-Inv (send_request-Keeps msg x c (λ s. refl)) v))
      | inr may_not ↦ rw may_not v
    ]

neutral-Inv :
    (msg : ClientMessage) (x : Exchange) (c : Connection)
    → IsNeutral msg
    → Inv c
    → Inv (send_request msg x c).1
neutral-Inv msg x c h v = Keeps-Inv (send_request-Keeps msg x c h) v

step-Inv : (call : Call) (c : Connection) → Inv c → Inv (step call c)
unfolding step connect disconnect close_tuner set_channel set_channel_space start_stream stop_stream
    purge_stream enum_tuning_space enum_channel_name set_lnb_power
step-Inv (connects hello filter) c v = connect_from-Inv c.state hello filter c v
step-Inv disconnects c v = idle-Inv _ refl
step-Inv (opens x) c v = open_tuner-Inv x c v
step-Inv (closes stop x) c v = idle-Inv _ refl
step-Inv (sets_channel channel x) c v = neutral-Inv _ x c (λ s. refl) v
step-Inv (sets_channel_space space channel priority exclusive x) c v =
    neutral-Inv _ x c (λ s. refl) v
step-Inv (gets_signal_level now x) c v = get_signal_level-Inv now x c v
step-Inv (starts x) c v = start_from-Inv c.state x c v
step-Inv (stops x) c v = stop_from-Inv c.state x c v
step-Inv (purges x) c v =
    neutral-Inv Messages.purge_stream x (record c { buffer = RingBuffer.clear c.buffer })
      (λ s. refl) (record { started = v.started })
step-Inv (enums_space space x) c v = neutral-Inv _ x c (λ s. refl) v
step-Inv (enums_channel space channel x) c v = neutral-Inv _ x c (λ s. refl) v
step-Inv (sets_lnb enable x) c v = neutral-Inv _ x c (λ s. refl) v

run-Inv : (calls : List Call) (c : Connection) → Inv c → Inv (run calls c)
unfolding run
run-Inv [] c v = v
run-Inv (call ∷ calls) c v = run-Inv calls (step call c) (step-Inv call c v)

new-Inv : (config : ConnectionConfig) → Inv (Connection.new config)
unfolding Connection.new
new-Inv config = idle-Inv _ refl

-- After any calls on a new connection, whatever the server answers and whichever requests time out:
-- when the client takes itself to be streaming, then it has sent the command to start, and neither
-- the one to stop nor the one to close the tuner after that.
pub run-streaming :
    (config : ConnectionConfig) (calls : List Call)
    → is_streaming (run calls (Connection.new config)).state ≡ true
    → streams false (run calls (Connection.new config)).sent ≡ true
run-streaming config calls = (run-Inv calls (Connection.new config) (new-Inv config)).started
