-- ===== src/Tuner/Pool/Tests.antt =====
-- The pool's theorems at concrete pools.
use recisdb_proxy_rs.Base.{ℕ, ◌≡◌, ◌≢◌, refl, true, false, none, some, [], ◌∷◌, arith, ok, err}
use recisdb_proxy_rs.Tuner.ChannelKey.{ChannelKey, space_channel, key_eq}
use recisdb_proxy_rs.Tuner.KeyMap.{lookup}
use recisdb_proxy_rs.Tuner.Pool.{
  TunerPool, SharedTuner, IdleTask, default_config, new_with_config, subscribe, get,
  has_subscribers, open_failed, at_capacity,
}
use recisdb_proxy_rs.Tuner.Pool.Idle.{
  cancel_idle_close, schedule_idle_close, end_task, expire_start, expire_finish, is_canceled,
}
use recisdb_proxy_rs.Tuner.Pool.Create.{get_or_create, insert_new, slow_path}
use recisdb_proxy_rs.Tuner.Pool.Invariant.{IsPool}
use recisdb_proxy_rs.Tuner.Pool.Capacity.{
  subscribing, looking_up, creating, scheduling, cleaning, apply_all, apply_all-IsPool,
}
use recisdb_proxy_rs.Tuner.Pool.Subscribers.{IsHeld, get_or_create-IsHeld}
use recisdb_proxy_rs.Tuner.Pool.Timers.{expire-IsHeld, end_task-loses_timer}
use recisdb_proxy_rs.Tuner.Pool.Returned.{IsFull, get_or_create-there, get_or_create-IsFull}

-- Channels of one tuner.
abbrev channel : ℕ → ChannelKey
channel n = record { tuner_path = 112 ∷ 120 ∷ []; channel = space_channel 0 n }

abbrev unused : ℕ → SharedTuner
unused a = record { key = channel 0; subscriber_count = 0; is_running = false }

-- A pool of one tuner, then with a tuner for channel 7 that has a subscriber.
abbrev empty_pool : TunerPool
empty_pool = new_with_config unused 1 default_config

abbrev one_pool : TunerPool
one_pool = subscribe 0 (insert_new (channel 7) empty_pool)

-- The tuner, idle with one subscriber.
abbrev tuner_7 : SharedTuner
tuner_7 = record { key = channel 7; subscriber_count = 1; is_running = false }

one_pool-IsHeld : IsHeld (channel 7) 0 tuner_7 one_pool
unfolding subscribe insert_new new_with_config get has_subscribers key_eq
one_pool-IsHeld = record { there = refl; same = refl; subscribed = refl; made = omega arith }

apply_all-IsPool_example : IsPool (
    apply_all
      (looking_up (channel 7)
        ∷ creating (channel 7) none
        ∷ subscribing 0
        ∷ scheduling (channel 7) 0
        ∷ creating (channel 8) none
        ∷ cleaning
        ∷ [])
      (new_with_config unused 1 default_config))
apply_all-IsPool_example =
    apply_all-IsPool
      (looking_up (channel 7)
        ∷ creating (channel 7) none
        ∷ subscribing 0
        ∷ scheduling (channel 7) 0
        ∷ creating (channel 8) none
        ∷ cleaning
        ∷ [])
      unused 1 default_config

get_or_create-IsHeld_example :
    IsHeld (channel 7) 0 tuner_7 (get_or_create (channel 8) none one_pool).0
get_or_create-IsHeld_example =
    get_or_create-IsHeld (channel 7) 0 tuner_7 (channel 8) none one_pool one_pool-IsHeld

-- A timer for an older tuner of the key.
abbrev old_task : IdleTask
old_task = record { handle = 0; key = channel 7; tuner = 5 }

-- While it stops that one, a second subscriber comes.
abbrev tuner_7_twice : SharedTuner
tuner_7_twice = record tuner_7 { subscriber_count = 2 }

later_pool-IsHeld : IsHeld (channel 7) 0 tuner_7_twice (subscribe 0 one_pool)
unfolding subscribe insert_new new_with_config get has_subscribers key_eq
later_pool-IsHeld = record { there = refl; same = refl; subscribed = refl; made = omega arith }

expire-IsHeld_example :
    IsHeld (channel 7) 0 tuner_7 (expire_start old_task one_pool).0
    × IsHeld
        (channel 7)
        0
        tuner_7_twice
        (expire_finish (expire_start old_task one_pool).1 old_task (subscribe 0 one_pool))
expire-IsHeld_example =
    expire-IsHeld (channel 7) 0 tuner_7 tuner_7_twice old_task one_pool (subscribe 0 one_pool)
      one_pool-IsHeld later_pool-IsHeld

reused : (get_or_create (channel 7) none one_pool).1 ≡ ok 0
unfolding subscribe insert_new new_with_config get_or_create get key_eq
reused = refl

get_or_create-there_example : get (channel 7) (get_or_create (channel 7) none one_pool).0 ≡ some 0
get_or_create-there_example = get_or_create-there (channel 7) none one_pool 0 reused

refused : (get_or_create (channel 8) none one_pool).1 ≡ err (open_failed at_capacity)
unfolding subscribe insert_new new_with_config get_or_create get key_eq
refused = refl

get_or_create-IsFull_example : IsFull (get_or_create (channel 8) none one_pool).0
get_or_create-IsFull_example =
    get_or_create-IsFull (channel 8) one_pool (open_failed at_capacity) refused

-- A pool with a timer for channel 7.
abbrev timed_pool : TunerPool
timed_pool = apply_all (creating (channel 7) none ∷ scheduling (channel 7) 0 ∷ []) empty_pool

timed_pool-IsPool : IsPool timed_pool
timed_pool-IsPool =
    apply_all-IsPool (creating (channel 7) none ∷ scheduling (channel 7) 0 ∷ []) unused 1
      default_config

sixty_seconds : timed_pool.config.keep_alive_secs ≡ 60
unfolding schedule_idle_close slow_path new_with_config key_eq get
sixty_seconds = refl

keep_alive : timed_pool.config.keep_alive_secs ≢ 0
keep_alive = λ e. absurd (omega (arith, e, sixty_seconds))

abbrev first_task : IdleTask
first_task = record { handle = 0; key = channel 7; tuner = 0 }

end_task-loses_timer_example :
    (lookup
        (channel 7)
        (end_task first_task
          (schedule_idle_close (channel 7) 0 (cancel_idle_close (channel 7) timed_pool))).idle_tasks
      ≡ none)
    × (is_canceled
          (record { handle = timed_pool.spawned; key = channel 7; tuner = 0 })
          (end_task first_task
            (schedule_idle_close (channel 7) 0 (cancel_idle_close (channel 7) timed_pool)))
        ≡ true)
end_task-loses_timer_example =
    end_task-loses_timer first_task 0 timed_pool timed_pool-IsPool keep_alive
