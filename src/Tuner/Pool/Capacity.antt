-- ===== src/Tuner/Pool/Capacity.antt =====
-- The invariant of the pool after any calls, timers and clients, interleaved in any way.
use recisdb_proxy_rs.Base.{ℕ, Option, List, [], ◌∷◌}
use recisdb_proxy_rs.Tuner.ChannelKey.{ChannelKey}
use recisdb_proxy_rs.Tuner.Pool.{
  TunerPool, TunerPoolConfig, TunerPoolError, SharedTuner, IdleTask, new_with_config, subscribe,
  unsubscribe, cleanup, get, stop_reader, remove,
}
use recisdb_proxy_rs.Tuner.Pool.Idle.{
  cancel_idle_close, cancel_all_idle, schedule_idle_close, remove_stopped, end_task, update_config,
}
use recisdb_proxy_rs.Tuner.Pool.Create.{fast_path, slow_path}
use recisdb_proxy_rs.Tuner.Pool.Invariant.{
  IsPool, new-IsPool, remove-IsPool, retain_subscribed-IsPool, cancel_idle_close-IsPool,
  subscribe-IsPool, unsubscribe-IsPool, stop_reader-IsPool,
}
use recisdb_proxy_rs.Tuner.Pool.Preserved.{
  schedule_idle_close-IsPool, update_config-IsPool, cancel_all_idle-IsPool, remove_if_same-IsPool,
  fast_from-IsPool, slow_from-IsPool,
}

-- What a client, a session or a timer does between two points at which it can be suspended. A
-- call of `get_or_create` is its fast path and, later, its slow path with what the factory returns;
-- a timer that ends stops the tuner's reader, later removes the tuner, and later forgets itself.
pub data Event : Type 0 where
  subscribing unsubscribing stopping : ℕ → Event
  removing canceling looking_up : ChannelKey → Event
  cleaning canceling_all : Event
  scheduling : ChannelKey → ℕ → Event
  configuring : TunerPoolConfig → Event
  expiring ending : IdleTask → Event
  creating : ChannelKey → Option TunerPoolError → Event

abbrev pub apply : Event → TunerPool → TunerPool
apply (subscribing a) p = subscribe a p
apply (unsubscribing a) p = unsubscribe a p
apply (stopping a) p = stop_reader a p
apply (removing key) p = remove key p
apply (canceling key) p = cancel_idle_close key p
apply (looking_up key) p = (fast_path key p).0
apply cleaning p = (cleanup p).0
apply canceling_all p = cancel_all_idle p
apply (scheduling key a) p = schedule_idle_close key a p
apply (configuring config) p = update_config config p
apply (expiring t) p = remove_stopped t p
apply (ending t) p = end_task t p
apply (creating key factory) p = (slow_path key factory p).0

abbrev pub apply_all : List Event → TunerPool → TunerPool
apply_all [] p = p
apply_all (e ∷ es) p = apply_all es (apply e p)

apply-IsPool : (e : Event) (p : TunerPool) → IsPool p → IsPool (apply e p)
unfolding cleanup fast_path slow_path remove_stopped end_task cancel_idle_close
apply-IsPool (subscribing a) p h = subscribe-IsPool a p h
apply-IsPool (unsubscribing a) p h = unsubscribe-IsPool a p h
apply-IsPool (stopping a) p h = stop_reader-IsPool a p h
apply-IsPool (removing key) p h = remove-IsPool key p h
apply-IsPool (canceling key) p h = cancel_idle_close-IsPool key p h
apply-IsPool (looking_up key) p h = fast_from-IsPool key (get key p) p h
apply-IsPool cleaning p h = retain_subscribed-IsPool p h
apply-IsPool canceling_all p h = cancel_all_idle-IsPool p h
apply-IsPool (scheduling key a) p h = schedule_idle_close-IsPool key a p h
apply-IsPool (configuring config) p h = update_config-IsPool config p h
apply-IsPool (expiring t) p h = remove_if_same-IsPool t.key t.tuner (get t.key p) p h
apply-IsPool (ending t) p h = cancel_idle_close-IsPool t.key p h
apply-IsPool (creating key factory) p h = slow_from-IsPool key factory (get key p) p h

kept : (es : List Event) (p : TunerPool) → IsPool p → IsPool (apply_all es p)
kept [] p h = h
kept (e ∷ es) p h = kept es (apply e p) (apply-IsPool e p h)

-- After any events on a new pool, in any order: no more tuners are in it than the maximum, no key is
-- there twice, each entry is of a tuner that was made for its key, and each key has one timer at most.
pub apply_all-IsPool :
    (es : List Event) (unused : ℕ → SharedTuner) (max_tuners : ℕ) (config : TunerPoolConfig)
    → IsPool (apply_all es (new_with_config unused max_tuners config))
apply_all-IsPool es unused max_tuners config =
    kept es (new_with_config unused max_tuners config) (new-IsPool unused max_tuners config)
