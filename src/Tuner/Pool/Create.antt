-- ===== src/Tuner/Pool/Create.antt =====
-- recisdb-proxy/src/tuner/pool.rs: `get_or_create`.
use recisdb_proxy_rs.Base.{ℕ, suc, Option, none, some, length, leb, if◌then◌else◌, Outcome, ok, err}
use recisdb_proxy_rs.Tuner.ChannelKey.{ChannelKey}
use recisdb_proxy_rs.Tuner.KeyMap.{insert}
use recisdb_proxy_rs.Tuner.Pool.{
  TunerPool, TunerPoolError, open_failed, at_capacity, shared_new, put_arc, is_stale, get, remove,
  retain_subscribed,
}
use recisdb_proxy_rs.Tuner.Pool.Idle.{cancel_idle_close}

-- The fast path of `get_or_create`, under the read lock, and the eviction behind it.
unfoldable pub evict_from : ChannelKey → Option ℕ → TunerPool → TunerPool
unfolding remove is_stale
evict_from key (some current) p = if is_stale p current then remove key p else p
evict_from key none p = p

unfoldable pub evict : ChannelKey → TunerPool → TunerPool
unfolding evict_from cancel_idle_close
evict key p = let p' = cancel_idle_close key p in evict_from key (get key p') p'

unfoldable pub fast_from : ChannelKey → Option ℕ → TunerPool → TunerPool × Option ℕ
unfolding evict
fast_from key none p = (p, none)
fast_from key (some tuner) p =
    if is_stale p tuner then (evict key p, none) else (cancel_idle_close key p, some tuner)

unfoldable pub fast_path : ChannelKey → TunerPool → TunerPool × Option ℕ
unfolding fast_from
fast_path key p = fast_from key (get key p) p

-- The slow path, under the write lock; `factory` is what the call of the factory returns.
unfoldable pub make_room : TunerPool → TunerPool
unfolding retain_subscribed
make_room p = if leb p.max_tuners (length p.tuners) then retain_subscribed p else p

unfoldable pub insert_new : ChannelKey → TunerPool → TunerPool
unfolding put_arc shared_new insert
insert_new key p = record p {
  tuners = insert key p.allocated p.tuners;
  arcs = put_arc p.allocated (shared_new key) p.arcs;
  allocated = suc p.allocated;
}

unfoldable pub call_factory :
    ChannelKey → Option TunerPoolError → TunerPool → TunerPool × Outcome TunerPoolError ℕ
unfolding insert_new
call_factory key (some e) p = (p, err e)
call_factory key none p = (insert_new key p, ok p.allocated)

unfoldable pub create :
    ChannelKey → Option TunerPoolError → TunerPool → TunerPool × Outcome TunerPoolError ℕ
unfolding make_room call_factory
create key factory p =
    let p' = make_room p in
    if leb p'.max_tuners (length p'.tuners)
    then (p', err (open_failed at_capacity))
    else call_factory key factory p'

unfoldable pub slow_from :
    ChannelKey → Option TunerPoolError → Option ℕ → TunerPool → TunerPool × Outcome TunerPoolError ℕ
unfolding create
slow_from key factory none p = create key factory p
slow_from key factory (some tuner) p =
    if is_stale p tuner
    then create key factory (remove key (cancel_idle_close key p))
    else (cancel_idle_close key p, ok tuner)

unfoldable pub slow_path :
    ChannelKey → Option TunerPoolError → TunerPool → TunerPool × Outcome TunerPoolError ℕ
unfolding slow_from
slow_path key factory p = slow_from key factory (get key p) p

-- Without an interleaving between the two.
unfoldable pub get_or_create :
    ChannelKey → Option TunerPoolError → TunerPool → TunerPool × Outcome TunerPoolError ℕ
unfolding fast_path slow_path
get_or_create key factory p =
    let r = fast_path key p in
    elim r.1 [ some tuner ↦ (r.0, ok tuner) | none ↦ slow_path key factory r.0 ]
