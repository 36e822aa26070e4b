-- ===== src/Tuner/Pool/Idle.antt =====
-- recisdb-proxy/src/tuner/pool.rs: the timers that close a tuner without subscribers.
use recisdb_proxy_rs.Base.{
  ℕ, suc, Bool, true, false, not, Option, none, some, [], ◌∷◌, ◌==◌, if◌then◌else◌,
}
use recisdb_proxy_rs.Tuner.ChannelKey.{ChannelKey}
use recisdb_proxy_rs.Tuner.KeyMap.{KeyMap, lookup, erase, insert, retain}
use recisdb_proxy_rs.Tuner.Pool.{
  TunerPool, TunerPoolConfig, IdleTask, get, remove, stop_reader, has_subscribers,
}

-- The sender that leaves the map is used or dropped: its task's `cancel_rx` is ready either way.
unfoldable pub cancel_idle_close : ChannelKey → TunerPool → TunerPool
unfolding erase
cancel_idle_close key p = record p { idle_tasks = erase key p.idle_tasks }

unfoldable pub cancel_all_idle : TunerPool → TunerPool
cancel_all_idle p = record p { idle_tasks = [] }

-- The part of `schedule_idle_close` that spawns.
unfoldable pub spawn_idle_task : ChannelKey → TunerPool → TunerPool
unfolding insert
spawn_idle_task key p = record p {
  idle_tasks = insert key p.spawned p.idle_tasks;
  spawned = suc p.spawned;
}

unfoldable pub schedule_from : ChannelKey → Option ℕ → TunerPool → TunerPool
unfolding spawn_idle_task cancel_idle_close
schedule_from key (some handle) p = p
schedule_from key none p = spawn_idle_task key (cancel_idle_close key p)

unfoldable pub schedule_idle_close : ChannelKey → ℕ → TunerPool → TunerPool
unfolding schedule_from stop_reader remove
schedule_idle_close key tuner p =
    if p.config.keep_alive_secs == 0
    then remove key (stop_reader tuner p)
    else schedule_from key (lookup key p.idle_tasks) p

-- The timer's branch of the task: up to `stop_reader`, behind it, and its last line.
unfoldable pub remove_if_same : ChannelKey → ℕ → Option ℕ → TunerPool → TunerPool
unfolding remove
remove_if_same key tuner (some current) p = if current == tuner then remove key p else p
remove_if_same key tuner none p = p

unfoldable pub remove_stopped : IdleTask → TunerPool → TunerPool
unfolding remove_if_same
remove_stopped t p = remove_if_same t.key t.tuner (get t.key p) p

unfoldable pub end_task : IdleTask → TunerPool → TunerPool
unfolding erase
end_task t p = record p { idle_tasks = erase t.key p.idle_tasks }

-- The branch is suspended in `stop_reader`, and whatever runs meanwhile is between its two halves: the
-- test with the call of `stop_reader`, and what follows when the test found no subscriber, or found one.
unfoldable pub expire_start : IdleTask → TunerPool → TunerPool × Bool
unfolding stop_reader
expire_start t p = if has_subscribers p t.tuner then (p, false) else (stop_reader t.tuner p, true)

unfoldable pub expire_finish : Bool → IdleTask → TunerPool → TunerPool
unfolding remove_stopped end_task
expire_finish true t p = end_task t (remove_stopped t p)
expire_finish false t p = end_task t p

-- Whether `cancel_rx` is ready: its sender has left the map.
unfoldable pub holds : ℕ → KeyMap ℕ → Bool
holds handle [] = false
holds handle (e ∷ m) = let later = holds handle m in if e.1 == handle then true else later

unfoldable pub is_canceled : IdleTask → TunerPool → Bool
unfolding holds
is_canceled t p = not (holds t.handle p.idle_tasks)

unfoldable pub schedule_all : KeyMap ℕ → TunerPool → TunerPool
unfolding schedule_idle_close
schedule_all [] p = p
schedule_all (e ∷ rest) p = schedule_all rest (schedule_idle_close e.0 e.1 p)

unfoldable pub update_config : TunerPoolConfig → TunerPool → TunerPool
unfolding cancel_all_idle schedule_all
update_config config p =
    let p' = record p { config = config } in
    let idle_tuners = retain (λ a. not (has_subscribers p a)) p.tuners in
    if p.config.keep_alive_secs == config.keep_alive_secs
    then p'
    else schedule_all idle_tuners (cancel_all_idle p')
