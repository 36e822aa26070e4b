-- ===== src/Session/Handlers/Tests.antt =====
-- The handlers' theorems at a session that streams from the one tuner of a pool.
use recisdb_proxy_rs.Base.{
  ℕ, ◌+◌, ◌<◌, ◌^◌, ◌≡◌, true, false, none, some, [], ◌∷◌, ◌==◌, if◌then◌else◌, arith, err,
}
use recisdb_proxy_rs.Tuner.ChannelKey.{simple}
use recisdb_proxy_rs.Tuner.Pool.{TunerPool, SharedTuner, default_config}
use recisdb_proxy_rs.Session.Handlers.{
  streaming, Served, broken_pipe, is_tuner_open, stop_stream, start_stream, ping, close_tuner,
  handle_message,
}
use recisdb_proxy_rs.Session.Handlers.Balance.{IsBalanced, handle_message-IsBalanced}
use recisdb_proxy_rs.Session.Handlers.Faults.{serve, handle_close_tuner-silences}

abbrev a_tuner : ℕ → SharedTuner
a_tuner a = record {
  key = record { tuner_path = []; channel = simple 7 };
  subscriber_count = if a == 0 then 3 else 0;
  is_running = true;
}

abbrev a_pool : TunerPool
a_pool = record {
  tuners = ((a_tuner 0).key, 0) ∷ [];
  idle_tasks = [];
  max_tuners = 4;
  config = default_config;
  arcs = a_tuner;
  allocated = 1;
  spawned = 0;
}

-- The session holds one subscription and others two.
abbrev viewer : Served
viewer = record {
  session = record {
    state = streaming;
    current_tuner = some 0;
    ts_receiver = true;
    writer_open = true;
    sent = [];
    tsreplace_passthrough_on_error = false;
    single_service_filter_enabled = false;
    ts_service_filter = none;
  };
  pool = a_pool;
}

abbrev others : ℕ → ℕ
others a = if a == 0 then 2 else 0

few : (a : ℕ) → others a + 1 < 2 ^ 32
few a = ground arith

viewer-IsBalanced : IsBalanced others viewer
unfolding is_tuner_open
viewer-IsBalanced = record { idle = λ e. cc; counts = λ a. ground arith }

handle_message-IsBalanced_example : IsBalanced others (handle_message stop_stream viewer).0
handle_message-IsBalanced_example =
    handle_message-IsBalanced others few stop_stream viewer viewer-IsBalanced

handle_close_tuner-silences_example :
    ((handle_message close_tuner viewer).1 ≡ err broken_pipe)
    × ((serve (ping ∷ start_stream true ∷ []) (handle_message close_tuner viewer).0).session.sent
        ≡ [])
handle_close_tuner-silences_example =
    handle_close_tuner-silences viewer (ping ∷ start_stream true ∷ [])
