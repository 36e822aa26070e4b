-- ===== src/Session/Handlers/Balance.antt =====
-- A session's subscriptions against the counts of the tuners.
use recisdb_proxy_rs.Base.{
  ℕ, ◌+◌, ◌-◌, ◌^◌, ◌%◌, ◌<◌, ◌≡◌, refl, sym, ap, subst, ◌∙◌, Bool, true, false, ◌||◌, Option, none,
  some, ◌==◌, if◌then◌else◌, arith, Bool-cases, inl, inr,
}
use recisdb_proxy_rs.Protocol.Messages.{ServerMessage, close_tuner_ack}
use recisdb_proxy_rs.Tuner.Pool.{TunerPool, subscribe, unsubscribe}
use recisdb_proxy_rs.Tuner.Pool.Idle.{cancel_idle_close}
use recisdb_proxy_rs.Session.Handlers.{
  ClientSession, Served, is_tuner_open, send_message, greet, stop, close, set_filter, handle_hello,
  begin_stream, abort_stream, start_with, handle_start_stream, close_if_idle, release,
  handle_stop_stream, handle_purge_stream, handle_set_lnb_power, handle_set_service_filter, leave,
  cleanup, handle_close_tuner, Request, hello, ping, start_stream, stop_stream, purge_stream,
  set_lnb_power, close_tuner, set_service_filter, handle_message, protocol_version,
}
use recisdb_proxy_rs.Session.Handlers.Counts.{
  count, subscribe-count, unsubscribe-count, close_if_idle-count,
}

-- How often the session is subscribed to a tuner.
abbrev pub held_by : Bool → Option ℕ → ℕ → ℕ
held_by true (some b) a = if a == b then 1 else 0
held_by true none a = 0
held_by false tuner a = 0

abbrev pub held : ClientSession → ℕ → ℕ
held s a = held_by s.ts_receiver s.current_tuner a

-- A session that could start a stream holds no subscription; each tuner's count is what the others hold
-- and what the session holds.
pub record IsBalanced (others : ℕ → ℕ) (w : Served) : Type 0 where
  pub idle : is_tuner_open w.session.state ≡ true → w.session.ts_receiver ≡ false
  pub counts : (a : ℕ) → count w.pool a ≡ others a + held w.session a

module _ (others : ℕ → ℕ) where
  send_message-IsBalanced :
      (msg : ServerMessage) (w : Served)
      → IsBalanced others w
      → IsBalanced others (send_message msg w).0
  unfolding send_message
  send_message-IsBalanced msg w h = elim (Bool-cases w.session.writer_open) [
    | inl x ↦ rw x (record { idle = h.idle; counts = h.counts })
    | inr x ↦ rw x (record { idle = h.idle; counts = h.counts })
  ]

  returned :
      (a b : ℕ) (p : TunerPool)
      → count p a ≡ others a + held_by true (some b) a
      → count (unsubscribe b p) a ≡ others a
  returned a b p h =
      let left : (if a == b then count p b - 1 else count p a) ≡ others a =
        elim (Bool-cases (a == b)) [
          | inl y ↦
              (let same : a ≡ b = ground arith in
                let e : count p b ≡ count p a = ap (λ c. count p c) (sym same) in
                rw y (ground (arith, e, h, y)))
          | inr y ↦ rw y (ground (arith, h, y))
        ] in
      unsubscribe-count b a p ∙ left

  released :
      (a b : ℕ) (p : TunerPool)
      → count p a ≡ others a + held_by true (some b) a
      → count (close_if_idle b (unsubscribe b p)) a ≡ others a
  released a b p h = close_if_idle-count b a (unsubscribe b p) ∙ returned a b p h

  release-count :
      (receiving : Bool) (tuner : Option ℕ) (p : TunerPool)
      → ((a : ℕ) → count p a ≡ others a + held_by receiving tuner a)
      → (a : ℕ) → count (release receiving tuner p) a ≡ others a
  unfolding release
  release-count true (some b) p h a = released a b p (h a)
  release-count true none p h a = omega (arith, h a)
  release-count false tuner p h a = omega (arith, h a)

  leave-count :
      (receiving : Bool) (tuner : Option ℕ) (p : TunerPool)
      → ((a : ℕ) → count p a ≡ others a + held_by receiving tuner a)
      → (a : ℕ) → count (leave receiving tuner p) a ≡ others a
  unfolding leave
  leave-count true (some b) p h a = released a b p (h a)
  leave-count true none p h a = omega (arith, h a)
  leave-count false none p h a = omega (arith, h a)
  leave-count false (some b) p h a = omega (arith, close_if_idle-count b a p, h a)

  greet-IsBalanced : (t : Bool) (w : Served) → IsBalanced others w → IsBalanced others (greet t w)
  unfolding greet is_tuner_open
  greet-IsBalanced true w h = record { idle = λ e. cc; counts = h.counts }
  greet-IsBalanced false w h = h

  stop-IsBalanced : (w : Served) → IsBalanced others w → IsBalanced others (stop w)
  unfolding stop
  stop-IsBalanced w h =
      let s = w.session in
      record {
        idle = λ e. refl;
        counts = λ a. omega (arith, release-count s.ts_receiver s.current_tuner w.pool h.counts a);
      }

  close-IsBalanced : (w : Served) → IsBalanced others w → IsBalanced others (close w)
  unfolding close cleanup
  close-IsBalanced w h =
      let s = w.session in
      record {
        idle = λ e. refl;
        counts = λ a. omega (arith, leave-count s.ts_receiver s.current_tuner w.pool h.counts a);
      }

  set_filter-IsBalanced :
      (t : Bool) (w : Served) → IsBalanced others w → IsBalanced others (set_filter t w)
  unfolding set_filter
  set_filter-IsBalanced t w h = record { idle = h.idle; counts = h.counts }

  silent : (t : Bool) (o : Option ℕ) (a n m : ℕ) → t ≡ false → n ≡ m + held_by t o a → n ≡ m
  silent true o a n m r h = cc
  silent false o a n m r h = omega (arith, h)

  begun_tuner :
      (b : ℕ) (w : Served)
      → w.session.current_tuner ≡ some b
      → (begin_stream b w).session.current_tuner ≡ some b
  unfolding begin_stream
  begun_tuner b w e = e

  begun_receiver : (b : ℕ) (w : Served) → (begin_stream b w).session.ts_receiver ≡ true
  unfolding begin_stream
  begun_receiver b w = refl

  -- A session without a subscription takes one, and may give it back.
  module _ (small : (a : ℕ) → others a + 1 < 2 ^ 32) where
    begun :
        (a b : ℕ) (p : TunerPool)
        → ((x : ℕ) → count p x ≡ others x)
        → count (subscribe b p) a ≡ others a + held_by true (some b) a
    begun a b p h =
        let taken : (if a == b then (count p b + 1) % 2 ^ 32 else count p a)
            ≡ others a + held_by true (some b) a =
          elim (Bool-cases (a == b)) [
            | inl y ↦
                (let same : b ≡ a = ground arith in
                  let e : others b ≡ others a = ap others same in
                  rw y (omega (arith, h b, small b, e)))
            | inr y ↦ rw y (omega (arith, h a))
          ] in
        subscribe-count b a p ∙ taken

    begin_stream-IsBalanced :
        (b : ℕ) (w : Served)
        → w.session.current_tuner ≡ some b
        → w.session.ts_receiver ≡ false
        → IsBalanced others w
        → IsBalanced others (begin_stream b w)
    unfolding begin_stream cancel_idle_close is_tuner_open
    begin_stream-IsBalanced b w e r h = record {
      idle = λ x. cc;
      counts = λ a.
          subst (λ o. count (begin_stream b w).pool a ≡ others a + held_by true o a) (sym e)
            (begun a b (cancel_idle_close (w.pool.arcs b).key w.pool)
              λ x. silent w.session.ts_receiver w.session.current_tuner x _ _ r (h.counts x));
    }

    abort_stream-IsBalanced :
        (b : ℕ) (w : Served)
        → w.session.current_tuner ≡ some b
        → w.session.ts_receiver ≡ true
        → IsBalanced others w
        → IsBalanced others (abort_stream b w)
    unfolding abort_stream
    abort_stream-IsBalanced b w e r h = record {
      idle = λ x. refl;
      counts = λ a.
          (let known : count w.pool a ≡ others a + held_by true (some b) a =
              subst (λ o. count w.pool a ≡ others a + held_by true o a) e
                (subst (λ t. count w.pool a ≡ others a + held_by t w.session.current_tuner a) r
                  (h.counts a)) in
            omega (arith, returned a b w.pool known));
    }

    start_with-IsBalanced :
        (started : Bool) (o : Option ℕ) (w : Served)
        → w.session.current_tuner ≡ o
        → w.session.ts_receiver ≡ false
        → IsBalanced others w
        → IsBalanced others (start_with started o w).0
    unfolding start_with
    start_with-IsBalanced started none w e r h = send_message-IsBalanced _ w h
    start_with-IsBalanced started (some b) w e r h =
        let h' = begin_stream-IsBalanced b w e r h in
        elim (Bool-cases (started || w.session.tsreplace_passthrough_on_error)) [
          | inl x ↦ rw x (send_message-IsBalanced _ (begin_stream b w) h')
          | inr x ↦ rw x (
              send_message-IsBalanced _ (abort_stream b (begin_stream b w)) (
                abort_stream-IsBalanced b (begin_stream b w) (begun_tuner b w e)
                  (begun_receiver b w) h'))
        ]

    handle_start_stream-IsBalanced :
        (started : Bool) (w : Served)
        → IsBalanced others w
        → IsBalanced others (handle_start_stream started w).0
    unfolding handle_start_stream
    handle_start_stream-IsBalanced started w h = elim (Bool-cases (is_tuner_open w.session.state)) [
      | inl x ↦ rw x (start_with-IsBalanced started w.session.current_tuner w refl (h.idle x) h)
      | inr x ↦ rw x (send_message-IsBalanced _ w h)
    ]

    -- Others hold a number of subscriptions that leaves room for one more. When each tuner's count is
    -- what the others and the session hold, it still is after any message that these handlers serve,
    -- errors included; a session that could start a stream holds no subscription.
    pub handle_message-IsBalanced :
        (m : Request) (w : Served) → IsBalanced others w → IsBalanced others (handle_message m w).0
    unfolding handle_message handle_hello handle_stop_stream handle_purge_stream
        handle_set_lnb_power handle_set_service_filter handle_close_tuner
    handle_message-IsBalanced (hello version) w h =
        send_message-IsBalanced _ (greet (version == protocol_version) w) (greet-IsBalanced _ w h)
    handle_message-IsBalanced ping w h = send_message-IsBalanced _ w h
    handle_message-IsBalanced (start_stream started) w h =
        handle_start_stream-IsBalanced started w h
    handle_message-IsBalanced stop_stream w h =
        send_message-IsBalanced _ (stop w) (stop-IsBalanced w h)
    handle_message-IsBalanced purge_stream w h = send_message-IsBalanced _ w h
    handle_message-IsBalanced set_lnb_power w h = send_message-IsBalanced _ w h
    handle_message-IsBalanced close_tuner w h =
        send_message-IsBalanced (close_tuner_ack true) (close w) (close-IsBalanced w h)
    handle_message-IsBalanced (set_service_filter t) w h =
        send_message-IsBalanced _ (set_filter t w) (set_filter-IsBalanced t w h)
