-- ===== src/Tuner/Lock.antt =====
-- recisdb-proxy/src/tuner/lock.rs: the lock of a tuner. An operation takes the lock and returns it
-- changed; a guard that the source hands out is the right to drop it once.
pub mod Steps
pub mod Exclusion
pub mod Races
mod Tests
use recisdb_proxy_rs.Base.{
  ℕ, ◌+◌, ◌-◌, ◌%◌, Bool, true, false, Option, none, some, ltb, if◌then◌else◌, Outcome, ok, err,
  panicked, and_then,
}
use recisdb_proxy_rs.Tuner.ChannelKey.{ChannelKey, key_eq}
use recisdb_proxy_rs.Tuner.Semaphore.{Semaphore}

abbrev pub max_shared_clients : ℕ
max_shared_clients = 100

pub data LockError : Type 0 where
  channel_mismatch not_initialized closed timeout acquire_failed : LockError

pub record TunerLock (s : Semaphore) : Type 0 where
  pub semaphore : s.Permits
  pub max_permits : ℕ
  pub current_channel : Option ChannelKey
  pub shared_count : ℕ  -- AtomicU32

module _ (s : Semaphore) where
  open s use {with_permits, available_permits, try_acquire_many, release}

  unfoldable pub new : TunerLock s
  new = record {
    semaphore = with_permits max_shared_clients;
    max_permits = max_shared_clients;
    current_channel = none;
    shared_count = 0;
  }

  -- `try_acquire_many_owned(max_permits)`.
  unfoldable pub try_acquire_exclusive : TunerLock s → Outcome LockError (TunerLock s)
  try_acquire_exclusive l = elim (try_acquire_many l.max_permits l.semaphore) [
    | none ↦ err acquire_failed
    | some p ↦ ok (record l { semaphore = p })
  ]

  -- The drop of an `ExclusiveLockGuard`.
  unfoldable pub drop_exclusive : TunerLock s → TunerLock s
  drop_exclusive l = record l { semaphore = release l.max_permits l.semaphore }

  -- The check of the current channel, with which both ways to share begin.
  unfoldable pub check_channel : ChannelKey → Option ChannelKey → Outcome LockError (Unit {0})
  check_channel channel none = err not_initialized
  check_channel channel (some current) =
      if key_eq current channel then ok tt else err channel_mismatch

  -- One permit, and the count of shared clients.
  unfoldable pub take_shared : TunerLock s → Outcome LockError (TunerLock s)
  take_shared l = elim (try_acquire_many 1 l.semaphore) [
    | none ↦ err acquire_failed
    | some p ↦ ok (record l { semaphore = p; shared_count = (l.shared_count + 1) % 4294967296 })
  ]

  -- `readable` says whether `current_channel.try_read()` gets the read lock.
  unfoldable pub try_acquire_shared :
      Bool → ChannelKey → TunerLock s → Outcome LockError (TunerLock s)
  try_acquire_shared readable channel l =
      if readable
      then and_then (check_channel channel l.current_channel) (λ _. take_shared l)
      else err acquire_failed

  -- The drop of a `SharedLockGuard`; `fetch_sub` wraps.
  unfoldable pub drop_shared : TunerLock s → TunerLock s
  drop_shared l = record l {
    semaphore = release 1 l.semaphore;
    shared_count = (l.shared_count + 4294967295) % 4294967296;
  }

  unfoldable pub set_channel : ChannelKey → TunerLock s → TunerLock s
  set_channel channel l = record l { current_channel = some channel }

  unfoldable pub clear_channel : TunerLock s → TunerLock s
  clear_channel l = record l { current_channel = none }

  unfoldable pub is_locked : TunerLock s → Bool
  is_locked l = ltb (available_permits l.semaphore) l.max_permits

  -- `downgrade` up to `drop(permits)`.
  unfoldable pub downgrade_release : ChannelKey → TunerLock s → TunerLock s
  unfolding drop_exclusive set_channel
  downgrade_release channel l = drop_exclusive (set_channel channel l)

  -- The rest of `downgrade`: `try_acquire_owned().expect(..)`.
  unfoldable pub downgrade_acquire : TunerLock s → Outcome LockError (TunerLock s)
  unfolding take_shared
  downgrade_acquire l = elim (take_shared l) [
    | ok m ↦ ok m
    | err e ↦ panicked
    | panicked ↦ panicked
  ]
