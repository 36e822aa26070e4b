-- ===== src/Tuner/Lock/Tests.antt =====
-- The lock over a semaphore that counts its permits.
use recisdb_proxy_rs.Base.{
  ℕ, ◌+◌, ◌-◌, ◌≤◌, ◌<◌, ◌≡◌, refl, true, none, some, [], ◌∷◌, length, ltb, ltb_of_le,
  if◌then◌else◌, arith, ok, err,
}
use recisdb_proxy_rs.Tuner.ChannelKey.{ChannelKey, simple, key_eq}
use recisdb_proxy_rs.Tuner.Semaphore.{Semaphore, IsSemaphore}
use recisdb_proxy_rs.Tuner.Lock.{
  TunerLock, max_shared_clients, channel_mismatch, try_acquire_exclusive, try_acquire_shared, new,
  check_channel,
}
use recisdb_proxy_rs.Tuner.Lock.Steps.{World, Reach, here, next, start, exclude}
use recisdb_proxy_rs.Tuner.Lock.Exclusion.{lock_exclusion}
use recisdb_proxy_rs.Tuner.Lock.Races.{shared_guard_on_other_channel, downgrade_can_panic}

abbrev counting : Semaphore
counting = record {
  Permits = ℕ;
  with_permits = λ n. n;
  available_permits = λ p. p;
  try_acquire_many = λ n p. if ltb p n then none else some (p - n);
  release = λ n p. p + n;
}

acquire_all : (n p : ℕ) → n ≤ p → (if ltb p n then none else some (p - n)) ≡ some (p - n)
acquire_all n p h = rw (ltb_of_le p n h) refl

counting-IsSemaphore : IsSemaphore counting
counting-IsSemaphore = record {
  available-with_permits = λ n. refl;
  available-acquire = λ n p q e. ground arith;
  acquire_available = λ n p h. (p - n, acquire_all n p h);
  available-release = λ n p. refl;
}

abbrev key13 : ChannelKey
key13 = record { tuner_path = b'/' ∷ b'd' ∷ []; channel = simple 13 }

abbrev key14 : ChannelKey
key14 = record { tuner_path = b'/' ∷ b'd' ∷ []; channel = simple 14 }

abbrev tuned : TunerLock counting
tuned = record {
  semaphore = 100;
  max_permits = 100;
  current_channel = some key13;
  shared_count = 0;
}

-- `test_channel_mismatch` of lock.rs.
mismatch : try_acquire_shared counting true key14 tuned ≡ err channel_mismatch
unfolding try_acquire_shared check_channel key_eq
mismatch = refl

abbrev excluded : TunerLock counting
excluded = record { semaphore = 0; max_permits = 100; current_channel = none; shared_count = 0 }

excluded_step : try_acquire_exclusive counting (start counting).lock ≡ ok excluded
unfolding try_acquire_exclusive start new
excluded_step = refl

abbrev one_guard : World counting
one_guard = record {
  lock = excluded;
  exclusive = 1;
  checked = [];
  sharing = [];
  downgrading = [];
  panics = 0;
}

one_guard_reached : Reach counting one_guard
unfolding start
one_guard_reached = next here (exclude excluded excluded_step)

lock_exclusion_example :
    (one_guard.exclusive ≤ 1)
    × (0 < one_guard.exclusive → one_guard.sharing ≡ [])
    × (length one_guard.sharing ≤ max_shared_clients)
    × (one_guard.lock.shared_count ≡ length one_guard.sharing)
lock_exclusion_example =
    lock_exclusion counting counting-IsSemaphore {w = one_guard} one_guard_reached

shared_guard_on_other_channel_example :
    (w : World counting) × Reach counting w
    × (w.sharing ≡ key13 ∷ [])
    × (w.lock.current_channel ≡ some key14)
shared_guard_on_other_channel_example =
    shared_guard_on_other_channel counting counting-IsSemaphore key13 key14

downgrade_can_panic_example : (w : World counting) × Reach counting w × (w.panics ≡ 1)
downgrade_can_panic_example = downgrade_can_panic counting counting-IsSemaphore key13
