-- ===== src/Tuner/Lock/Steps.antt =====
-- Clients of one lock, interleaved: what each of them does between two suspension points is a step.
use recisdb_proxy_rs.Base.{ℕ, ◌+◌, ◌-◌, ◌<◌, ◌≡◌, List, [], ◌∷◌, ◌++◌, ok, panicked}
use recisdb_proxy_rs.Tuner.ChannelKey.{ChannelKey}
use recisdb_proxy_rs.Tuner.Semaphore.{Semaphore}
use recisdb_proxy_rs.Tuner.Lock.{
  TunerLock, new, try_acquire_exclusive, drop_exclusive, check_channel, take_shared, drop_shared,
  set_channel, clear_channel, downgrade_release, downgrade_acquire,
}

-- The lock, the exclusive guards that are out, the clients that passed the check of the channel and
-- wait for a permit, the shared guards that are out, the clients inside `downgrade` between its two
-- halves, and how many of those panicked. A client is known by the channel that it asked for.
pub record World (s : Semaphore) : Type 0 where
  pub lock : TunerLock s
  pub exclusive : ℕ
  pub checked : List ChannelKey
  pub sharing : List ChannelKey
  pub downgrading : List ChannelKey
  pub panics : ℕ

-- `xs` is `ys` with `k` somewhere in it.
pub record Removes (k : ChannelKey) (xs ys : List ChannelKey) : Type 0 where
  pub before : List ChannelKey
  pub after : List ChannelKey
  pub with_it : xs ≡ before ++ (k ∷ after)
  pub without_it : ys ≡ before ++ after

module _ (s : Semaphore) where
  unfoldable pub start : World s
  start = record {
    lock = new s;
    exclusive = 0;
    checked = [];
    sharing = [];
    downgrading = [];
    panics = 0;
  }

  pub data Step (w : World s) : World s → Type 0 where
    exclude :
        (l : TunerLock s)
        → try_acquire_exclusive s w.lock ≡ ok l
        → Step w (record w { lock = l; exclusive = w.exclusive + 1 })
    tune : (k : ChannelKey) → 0 < w.exclusive → Step w (record w { lock = set_channel s k w.lock })
    clear : Step w (record w { lock = clear_channel s w.lock })
    unexclude :
        0 < w.exclusive
        → Step w (record w { lock = drop_exclusive s w.lock; exclusive = w.exclusive - 1 })
    check :
        (k : ChannelKey)
        → check_channel s k w.lock.current_channel ≡ ok tt
        → Step w (record w { checked = k ∷ w.checked })
    give_up :
        (k : ChannelKey) (rest : List ChannelKey)
        → Removes k w.checked rest
        → Step w (record w { checked = rest })
    share :
        (k : ChannelKey) (rest : List ChannelKey) (l : TunerLock s)
        → Removes k w.checked rest
        → take_shared s w.lock ≡ ok l
        → Step w (record w { lock = l; checked = rest; sharing = k ∷ w.sharing })
    unshare :
        (k : ChannelKey) (rest : List ChannelKey)
        → Removes k w.sharing rest
        → Step w (record w { lock = drop_shared s w.lock; sharing = rest })
    begin_downgrade :
        (k : ChannelKey)
        → 0 < w.exclusive
        → Step w (record w {
          lock = downgrade_release s k w.lock;
          exclusive = w.exclusive - 1;
          downgrading = k ∷ w.downgrading;
        })
    end_downgrade :
        (k : ChannelKey) (rest : List ChannelKey) (l : TunerLock s)
        → Removes k w.downgrading rest
        → downgrade_acquire s w.lock ≡ ok l
        → Step w (record w { lock = l; downgrading = rest; sharing = k ∷ w.sharing })
    fail_downgrade :
        (k : ChannelKey) (rest : List ChannelKey)
        → Removes k w.downgrading rest
        → downgrade_acquire s w.lock ≡ panicked
        → Step w (record w { downgrading = rest; panics = w.panics + 1 })

  pub data Reach : World s → Type 0 where
    here : Reach start
    next : {v w : World s} → Reach v → Step v w → Reach w
