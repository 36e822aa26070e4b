-- ===== src/Tuner/Pool/Preserved.antt =====
-- The timers and the two paths of `get_or_create` keep the invariant of the pool.
use recisdb_proxy_rs.Base.{
  ℕ, ◌<◌, Bool, true, false, not, Option, none, some, [], ◌∷◌, length, leb, ◌==◌, if◌then◌else◌,
  arith, Bool-cases, inl, inr,
}
use recisdb_proxy_rs.Tuner.ChannelKey.{ChannelKey}
use recisdb_proxy_rs.Tuner.KeyMap.{KeyMap, retain, lookup}
use recisdb_proxy_rs.Tuner.Pool.{
  TunerPool, TunerPoolConfig, TunerPoolError, stop_reader, remove, retain_subscribed,
  has_subscribers, is_stale, get,
}
use recisdb_proxy_rs.Tuner.Pool.Idle.{
  cancel_idle_close, cancel_all_idle, schedule_from, schedule_idle_close, remove_if_same,
  schedule_all, update_config,
}
use recisdb_proxy_rs.Tuner.Pool.Create.{
  evict_from, evict, fast_from, make_room, call_factory, create, slow_from,
}
use recisdb_proxy_rs.Tuner.Pool.Invariant.{
  IsPool, remove-IsPool, retain_subscribed-IsPool, cancel_idle_close-IsPool, stop_reader-IsPool,
  spawn_idle_task-IsPool, insert_new-IsPool,
}

-- Either branch of a test.
if-IsPool : (t : Bool) (p q : TunerPool) → IsPool p → IsPool q → IsPool (if t then p else q)
if-IsPool true p q h k = h
if-IsPool false p q h k = k

pub schedule_from-IsPool :
    (key : ChannelKey) (o : Option ℕ) (p : TunerPool) → IsPool p → IsPool (schedule_from key o p)
unfolding schedule_from
schedule_from-IsPool key (some handle) p h = h
schedule_from-IsPool key none p h =
    spawn_idle_task-IsPool key (cancel_idle_close key p) (cancel_idle_close-IsPool key p h)

pub schedule_idle_close-IsPool :
    (key : ChannelKey) (a : ℕ) (p : TunerPool) → IsPool p → IsPool (schedule_idle_close key a p)
unfolding schedule_idle_close
schedule_idle_close-IsPool key a p h =
    if-IsPool (p.config.keep_alive_secs == 0) (remove key (stop_reader a p)) _
      (remove-IsPool key (stop_reader a p) (stop_reader-IsPool a p h))
      (schedule_from-IsPool key (lookup key p.idle_tasks) p h)

pub schedule_all-IsPool : (m : KeyMap ℕ) (p : TunerPool) → IsPool p → IsPool (schedule_all m p)
unfolding schedule_all
schedule_all-IsPool [] p h = h
schedule_all-IsPool (e ∷ m) p h =
    schedule_all-IsPool m (schedule_idle_close e.0 e.1 p) (schedule_idle_close-IsPool e.0 e.1 p h)

configured :
    (config : TunerPoolConfig) (p : TunerPool) → IsPool p → IsPool (record p { config = config })
configured config p h = record {
  distinct = h.distinct;
  capacity = h.capacity;
  entries = h.entries;
  one_timer = h.one_timer;
  timers = h.timers;
}

pub cancel_all_idle-IsPool : (p : TunerPool) → IsPool p → IsPool (cancel_all_idle p)
unfolding cancel_all_idle
cancel_all_idle-IsPool p h = record {
  distinct = h.distinct;
  capacity = h.capacity;
  entries = h.entries;
  one_timer = tt;
  timers = tt;
}

pub update_config-IsPool :
    (config : TunerPoolConfig) (p : TunerPool) → IsPool p → IsPool (update_config config p)
unfolding update_config
update_config-IsPool config p h =
    let p' : TunerPool = record p { config = config } in
    let h' : IsPool p' = configured config p h in
    if-IsPool (p.config.keep_alive_secs == config.keep_alive_secs) p' _ h' (
      schedule_all-IsPool (retain (λ a. not (has_subscribers p a)) p.tuners) (cancel_all_idle p')
        (cancel_all_idle-IsPool p' h'))

pub remove_if_same-IsPool :
    (key : ChannelKey) (a : ℕ) (o : Option ℕ) (p : TunerPool)
    → IsPool p
    → IsPool (remove_if_same key a o p)
unfolding remove_if_same
remove_if_same-IsPool key a (some b) p h =
    if-IsPool (b == a) (remove key p) p (remove-IsPool key p h) h
remove_if_same-IsPool key a none p h = h

pub evict_from-IsPool :
    (key : ChannelKey) (o : Option ℕ) (p : TunerPool) → IsPool p → IsPool (evict_from key o p)
unfolding evict_from
evict_from-IsPool key (some a) p h =
    if-IsPool (is_stale p a) (remove key p) p (remove-IsPool key p h) h
evict_from-IsPool key none p h = h

pub evict-IsPool : (key : ChannelKey) (p : TunerPool) → IsPool p → IsPool (evict key p)
unfolding evict
evict-IsPool key p h =
    evict_from-IsPool key (get key (cancel_idle_close key p)) (cancel_idle_close key p)
      (cancel_idle_close-IsPool key p h)

pub fast_from-IsPool :
    (key : ChannelKey) (o : Option ℕ) (p : TunerPool) → IsPool p → IsPool (fast_from key o p).0
unfolding fast_from
fast_from-IsPool key none p h = h
fast_from-IsPool key (some a) p h = elim (Bool-cases (is_stale p a)) [
  | inl x ↦ rw x (evict-IsPool key p h)
  | inr x ↦ rw x (cancel_idle_close-IsPool key p h)
]

pub make_room-IsPool : (p : TunerPool) → IsPool p → IsPool (make_room p)
unfolding make_room
make_room-IsPool p h =
    if-IsPool (leb p.max_tuners (length p.tuners)) (retain_subscribed p) p
      (retain_subscribed-IsPool p h) h

pub call_factory-IsPool :
    (key : ChannelKey) (factory : Option TunerPoolError) (p : TunerPool)
    → length p.tuners < p.max_tuners
    → IsPool p
    → IsPool (call_factory key factory p).0
unfolding call_factory
call_factory-IsPool key (some e) p l h = h
call_factory-IsPool key none p l h = insert_new-IsPool key p l h

pub create-IsPool :
    (key : ChannelKey) (factory : Option TunerPoolError) (p : TunerPool)
    → IsPool p
    → IsPool (create key factory p).0
unfolding create
create-IsPool key factory p h =
    let p' : TunerPool = make_room p in
    let h' : IsPool p' = make_room-IsPool p h in
    elim (Bool-cases (leb p'.max_tuners (length p'.tuners))) [
      | inl x ↦ rw x h'
      | inr x ↦ rw x (call_factory-IsPool key factory p' (ground arith) h')
    ]

pub slow_from-IsPool :
    (key : ChannelKey) (factory : Option TunerPoolError) (o : Option ℕ) (p : TunerPool)
    → IsPool p
    → IsPool (slow_from key factory o p).0
unfolding slow_from
slow_from-IsPool key factory none p h = create-IsPool key factory p h
slow_from-IsPool key factory (some a) p h =
    let p' : TunerPool = cancel_idle_close key p in
    let h' : IsPool p' = cancel_idle_close-IsPool key p h in
    elim (Bool-cases (is_stale p a)) [
      | inl x ↦ rw x (create-IsPool key factory (remove key p') (remove-IsPool key p' h'))
      | inr x ↦ rw x h'
    ]
