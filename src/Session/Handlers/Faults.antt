-- ===== src/Session/Handlers/Faults.antt =====
-- What is sent to a client that closes its tuner.
use recisdb_proxy_rs.Base.{
  ℕ, ◌≡◌, refl, sym, subst, Bool, true, false, ◌||◌, Option, none, some, List, [], ◌∷◌, ◌==◌,
  if◌then◌else◌, Bool-cases, inl, inr, err,
}
use recisdb_proxy_rs.Protocol.Messages.{
  ServerMessage, hello_ack, pong, close_tuner_ack, start_stream_ack, stop_stream_ack,
  purge_stream_ack, set_lnb_power_ack, set_service_filter_ack, error,
}
use recisdb_proxy_rs.Session.Handlers.{
  ClientSession, Served, Reply, broken_pipe, is_tuner_open, send_message, greet, handle_hello,
  begin_stream, abort_stream, start_with, handle_start_stream, stop, handle_stop_stream,
  handle_purge_stream, handle_set_lnb_power, set_filter, handle_set_service_filter, cleanup, close,
  handle_close_tuner, Request, hello, ping, start_stream, stop_stream, purge_stream, set_lnb_power,
  close_tuner, set_service_filter, handle_message, protocol_version, invalid_state,
  tuner_open_failed, not_open,
}

-- A reply that fails, with the same messages sent as in `s` and no writer.
record IsSilent (s : ClientSession) (r : Reply) : Type 0 where
  pub closed : r.0.session.writer_open ≡ false
  pub unsent : r.0.session.sent ≡ s.sent
  pub failed : r.1 ≡ err broken_pipe

if-right : (t : Bool) (p q : Reply) → t ≡ false → (if t then p else q) ≡ q
if-right true p q h = cc
if-right false p q h = refl

send_message-IsSilent :
    (msg : ServerMessage) (s : ClientSession) (w : Served)
    → w.session.writer_open ≡ false
    → w.session.sent ≡ s.sent
    → IsSilent s (send_message msg w)
unfolding send_message
send_message-IsSilent msg s w h e =
    subst (λ r. IsSilent s r) (sym (if-right w.session.writer_open _ (w, err broken_pipe) h))
      (record { closed = h; unsent = e; failed = refl })

-- Each handler's changes leave the writer and what it was sent.
record IsQuiet (s : ClientSession) (w : Served) : Type 0 where
  pub closed : w.session.writer_open ≡ false
  pub unsent : w.session.sent ≡ s.sent

answer :
    (msg : ServerMessage) (s : ClientSession) (w : Served)
    → IsQuiet s w
    → IsSilent s (send_message msg w)
answer msg s w q = send_message-IsSilent msg s w q.closed q.unsent

module _ (s : ClientSession) where
  greet-IsQuiet : (t : Bool) (w : Served) → IsQuiet s w → IsQuiet s (greet t w)
  unfolding greet
  greet-IsQuiet true w q = record { closed = q.closed; unsent = q.unsent }
  greet-IsQuiet false w q = q

  start_with-IsSilent :
      (started : Bool) (o : Option ℕ) (w : Served)
      → IsQuiet s w
      → IsSilent s (start_with started o w)
  unfolding start_with begin_stream abort_stream
  start_with-IsSilent started none w q = answer (start_stream_ack false invalid_state) s w q
  start_with-IsSilent started (some b) w q =
      elim (Bool-cases (started || w.session.tsreplace_passthrough_on_error)) [
        | inl x ↦ rw x (
            answer (start_stream_ack true 0) s (begin_stream b w)
              (record { closed = q.closed; unsent = q.unsent }))
        | inr x ↦ rw x (
            answer (start_stream_ack false tuner_open_failed) s (abort_stream b (begin_stream b w))
              (record { closed = q.closed; unsent = q.unsent }))
      ]

  handle_start_stream-IsSilent :
      (started : Bool) (w : Served) → IsQuiet s w → IsSilent s (handle_start_stream started w)
  unfolding handle_start_stream
  handle_start_stream-IsSilent started w q = elim (Bool-cases (is_tuner_open w.session.state)) [
    | inl x ↦ rw x (start_with-IsSilent started w.session.current_tuner w q)
    | inr x ↦ rw x (answer (error invalid_state not_open) s w q)
  ]

  stop-IsQuiet : (w : Served) → IsQuiet s w → IsQuiet s (stop w)
  unfolding stop
  stop-IsQuiet w q = record { closed = q.closed; unsent = q.unsent }

  close-IsQuiet : (w : Served) → w.session.sent ≡ s.sent → IsQuiet s (close w)
  unfolding close cleanup
  close-IsQuiet w e = record { closed = refl; unsent = e }

  set_filter-IsQuiet : (t : Bool) (w : Served) → IsQuiet s w → IsQuiet s (set_filter t w)
  unfolding set_filter
  set_filter-IsQuiet t w q = record { closed = q.closed; unsent = q.unsent }

  handle_message-IsSilent :
      (m : Request) (w : Served) → IsQuiet s w → IsSilent s (handle_message m w)
  unfolding handle_message handle_hello handle_stop_stream handle_purge_stream handle_set_lnb_power
      handle_set_service_filter handle_close_tuner
  handle_message-IsSilent (hello version) w q =
      let t = version == protocol_version in
      answer (hello_ack protocol_version t) s (greet t w) (greet-IsQuiet t w q)
  handle_message-IsSilent ping w q = answer pong s w q
  handle_message-IsSilent (start_stream started) w q = handle_start_stream-IsSilent started w q
  handle_message-IsSilent stop_stream w q =
      answer (stop_stream_ack true) s (stop w) (stop-IsQuiet w q)
  handle_message-IsSilent purge_stream w q = answer (purge_stream_ack true) s w q
  handle_message-IsSilent set_lnb_power w q = answer (set_lnb_power_ack true 0) s w q
  handle_message-IsSilent close_tuner w q =
      answer (close_tuner_ack true) s (close w) (close-IsQuiet w q.unsent)
  handle_message-IsSilent (set_service_filter t) w q =
      answer (set_service_filter_ack true) s (set_filter t w) (set_filter-IsQuiet t w q)

-- Requests behind one another, whatever the replies.
abbrev pub serve : List Request → Served → Served
serve [] w = w
serve (m ∷ ms) w = serve ms (handle_message m w).0

served : (s : ClientSession) (ms : List Request) (w : Served) → IsQuiet s w → IsQuiet s (serve ms w)
served s [] w q = q
served s (m ∷ ms) w q =
    let r = handle_message-IsSilent s m w q in
    served s ms (handle_message m w).0 (record { closed = r.closed; unsent = r.unsent })

-- The reply to a message that closes the tuner fails, in any state of the session, and nothing is sent to
-- the client from then on, whatever it asks for.
pub handle_close_tuner-silences :
    (w : Served) (ms : List Request)
    → ((handle_message close_tuner w).1 ≡ err broken_pipe)
      × ((serve ms (handle_message close_tuner w).0).session.sent ≡ w.session.sent)
unfolding handle_message handle_close_tuner
handle_close_tuner-silences w ms =
    let r = answer (close_tuner_ack true) w.session (close w) (close-IsQuiet w.session w refl) in
    let q : IsQuiet w.session (handle_message close_tuner w).0 = record {
      closed = r.closed;
      unsent = r.unsent;
    } in
    (r.failed, (served w.session ms (handle_message close_tuner w).0 q).unsent)
