-- ===== src/Tuner/Pool.antt =====
-- recisdb-proxy/src/tuner/pool.rs: the pool of shared tuners, with what it uses of shared.rs. An `Arc` is
-- a number, and `arcs` the memory behind it. Each function is what happens under one lock, or between
-- two points at which a task can be suspended, and the compositions of these.
pub mod Idle
pub mod Create
mod Invariant
mod Preserved
mod Capacity
mod Subscribers
mod Timers
mod Returned
mod Tests
use recisdb_proxy_rs.Base.{
  ℕ, suc, map, ◌+◌, ◌-◌, ◌^◌, ◌%◌, Bool, true, false, not, ◌&&◌, Option, none, some, List, [], ◌∷◌,
  length, ltb, leb, ◌==◌, if◌then◌else◌, Outcome, ok, err,
}
use recisdb_proxy_rs.Tuner.ChannelKey.{ChannelKey}
use recisdb_proxy_rs.Tuner.KeyMap.{KeyMap, lookup, erase, insert, retain}

pub data TunerPoolError : Type 0 where
  open_failed tune_failed not_found : List ℕ → TunerPoolError

-- "Tuner pool at capacity".
abbrev pub at_capacity : List ℕ
at_capacity =
    84 ∷ 117 ∷ 110 ∷ 101 ∷ 114 ∷ 32 ∷ 112 ∷ 111 ∷ 111 ∷ 108 ∷ 32 ∷ 97 ∷ 116 ∷ 32 ∷ 99 ∷ 97 ∷ 112
    ∷ 97 ∷ 99 ∷ 105 ∷ 116 ∷ 121 ∷ []

pub record TunerPoolConfig : Type 0 where
  pub keep_alive_secs : ℕ
  pub prewarm_enabled : Bool
  pub prewarm_timeout_secs : ℕ
  pub set_channel_retry_interval_ms : ℕ
  pub set_channel_retry_timeout_ms : ℕ
  pub signal_poll_interval_ms : ℕ
  pub signal_wait_timeout_ms : ℕ

abbrev pub default_config : TunerPoolConfig
default_config = record {
  keep_alive_secs = 60;
  prewarm_enabled = true;
  prewarm_timeout_secs = 30;
  set_channel_retry_interval_ms = 500;
  set_channel_retry_timeout_ms = 10000;
  signal_poll_interval_ms = 500;
  signal_wait_timeout_ms = 10000;
}

-- What the pool reads of a tuner. The number of subscribers is an AtomicU32.
pub record SharedTuner : Type 0 where
  pub key : ChannelKey
  pub subscriber_count : ℕ
  pub is_running : Bool

-- A task that `schedule_idle_close` spawned: the sender of its `cancel_rx` is number `handle`.
pub record IdleTask : Type 0 where
  pub handle : ℕ
  pub key : ChannelKey
  pub tuner : ℕ

-- `tuners` and `idle_tasks` are the maps of the source, the latter of the numbers of the senders.
-- `allocated` counts the tuners that were made, and `spawned` the tasks.
pub record TunerPool : Type 0 where
  pub tuners : KeyMap ℕ
  pub idle_tasks : KeyMap ℕ
  pub max_tuners : ℕ
  pub config : TunerPoolConfig
  pub arcs : ℕ → SharedTuner
  pub allocated : ℕ
  pub spawned : ℕ

unfoldable pub shared_new : ChannelKey → SharedTuner
shared_new key = record { key = key; subscriber_count = 0; is_running = false }

unfoldable pub new_with_config : (ℕ → SharedTuner) → ℕ → TunerPoolConfig → TunerPool
new_with_config unused max_tuners config = record {
  tuners = [];
  idle_tasks = [];
  max_tuners = max_tuners;
  config = config;
  arcs = unused;
  allocated = 0;
  spawned = 0;
}

unfoldable pub put_arc : ℕ → SharedTuner → (ℕ → SharedTuner) → ℕ → SharedTuner
put_arc a t arcs b = if b == a then t else arcs b

unfoldable pub has_subscribers : TunerPool → ℕ → Bool
has_subscribers p a = ltb 0 (p.arcs a).subscriber_count

-- `!tuner.is_running() && !tuner.has_subscribers()`.
unfoldable pub is_stale : TunerPool → ℕ → Bool
unfolding has_subscribers
is_stale p a = not (p.arcs a).is_running && not (has_subscribers p a)

unfoldable pub subscribe : ℕ → TunerPool → TunerPool
unfolding put_arc
subscribe a p =
    let t = p.arcs a in
    let t' = record t { subscriber_count = (t.subscriber_count + 1) % 2 ^ 32 } in
    record p { arcs = put_arc a t' p.arcs }

unfoldable pub unsubscribe : ℕ → TunerPool → TunerPool
unfolding put_arc
unsubscribe a p =
    let t = p.arcs a in
    let t' = record t { subscriber_count = t.subscriber_count - 1 } in
    if ltb 0 t.subscriber_count then record p { arcs = put_arc a t' p.arcs } else p

-- `stop_reader`, whose wait for the reader ends; the reader's task is not modelled.
unfoldable pub stop_reader : ℕ → TunerPool → TunerPool
unfolding put_arc
stop_reader a p =
    let t = p.arcs a in record p { arcs = put_arc a (record t { is_running = false }) p.arcs }

unfoldable pub get : ChannelKey → TunerPool → Option ℕ
unfolding lookup
get key p = lookup key p.tuners

unfoldable pub remove : ChannelKey → TunerPool → TunerPool
unfolding erase
remove key p = record p { tuners = erase key p.tuners }

unfoldable pub count : TunerPool → ℕ
count p = length p.tuners

-- `retain(|_, t| t.has_subscribers())`, here and in `get_or_create`.
unfoldable pub retain_subscribed : TunerPool → TunerPool
unfolding retain
retain_subscribed p = record p { tuners = retain (has_subscribers p) p.tuners }

unfoldable pub cleanup : TunerPool → TunerPool × ℕ
unfolding retain_subscribed
cleanup p = let p' = retain_subscribed p in (p', length p.tuners - length p'.tuners)

unfoldable pub keys : TunerPool → List ChannelKey
keys p = map (λ e. e.0) p.tuners
