-- ===== src/Tuner/Lock/Exclusion.antt =====
-- Mutual exclusion, over every interleaving of clients.
use recisdb_proxy_rs.Base.{
  ℕ, ◌+◌, ◌*◌, ◌%◌, ◌≤◌, ◌<◌, ◌≡◌, refl, ap, Option-cases, inl, inr, List, [], ◌∷◌, length,
  length-append, arith, ok,
}
use recisdb_proxy_rs.Tuner.ChannelKey.{ChannelKey}
use recisdb_proxy_rs.Tuner.Semaphore.{Semaphore, IsSemaphore}
use recisdb_proxy_rs.Tuner.Lock.{
  TunerLock, max_shared_clients, new, try_acquire_exclusive, drop_exclusive, take_shared,
  drop_shared, set_channel, clear_channel, downgrade_release, downgrade_acquire,
}
use recisdb_proxy_rs.Tuner.Lock.Steps.{
  World, Removes, start, Step, exclude, tune, clear, unexclude, check, give_up, share, unshare,
  begin_downgrade, end_downgrade, fail_downgrade, Reach, here, next,
}

length-Removes :
    {k : ChannelKey} {xs ys : List ChannelKey} → Removes k xs ys → length xs ≡ length ys + 1
length-Removes {k} {xs} {ys} r = omega (
  arith,
  ap length r.with_it,
  ap length r.without_it,
  length-append r.before (k ∷ r.after),
  length-append r.before r.after,
)

module _ (s : Semaphore) (laws : IsSemaphore s) where
  -- The permits that a lock still has.
  abbrev pub free : TunerLock s → ℕ
  free l = s.available_permits l.semaphore

  -- What a successful exclusive acquisition does to the lock.
  exclusive-takes :
      (l m : TunerLock s)
      → try_acquire_exclusive s l ≡ ok m
      → (free m + l.max_permits ≡ free l)
        × (m.max_permits ≡ l.max_permits)
        × (m.shared_count ≡ l.shared_count)
  unfolding try_acquire_exclusive
  exclusive-takes l m h = elim (Option-cases (s.try_acquire_many l.max_permits l.semaphore)) [
    | inl e ↦ ground arith
    | inr (p, e) ↦ ground (arith, laws.available-acquire l.max_permits l.semaphore p e)
  ]

  shared-takes :
      (l m : TunerLock s)
      → take_shared s l ≡ ok m
      → (free m + 1 ≡ free l)
        × (m.max_permits ≡ l.max_permits)
        × (m.shared_count ≡ (l.shared_count + 1) % 4294967296)
  unfolding take_shared
  shared-takes l m h = elim (Option-cases (s.try_acquire_many 1 l.semaphore)) [
    | inl e ↦ ground arith
    | inr (p, e) ↦ ground (arith, laws.available-acquire 1 l.semaphore p e)
  ]

  downgrade-takes : (l m : TunerLock s) → downgrade_acquire s l ≡ ok m → take_shared s l ≡ ok m
  unfolding downgrade_acquire
  downgrade-takes l m h = ground arith

  pub record Inv (w : World s) : Type 0 where
    pub max_is : w.lock.max_permits ≡ 100
    pub permits : free w.lock + 100 * w.exclusive + length w.sharing ≡ 100
    pub counted : w.lock.shared_count ≡ length w.sharing

  start-Inv : Inv (start s)
  unfolding start new
  start-Inv = record {
    max_is = refl;
    permits = omega (arith, laws.available-with_permits 100);
    counted = refl;
  }

  Step-Inv : {v w : World s} → Step s v w → Inv v → Inv w
  unfolding drop_exclusive drop_shared set_channel clear_channel downgrade_release
  Step-Inv {v} (exclude l e) i = let t = exclusive-takes v.lock l e in omega (arith, t, i)
  Step-Inv (tune k h) i = omega (arith, i)
  Step-Inv clear i = omega (arith, i)
  Step-Inv {v} (unexclude h) i =
      omega (arith, laws.available-release v.lock.max_permits v.lock.semaphore, i)
  Step-Inv (check k e) i = omega (arith, i)
  Step-Inv (give_up k rest r) i = omega (arith, i)
  Step-Inv {v} (share k rest l r e) i = let t = shared-takes v.lock l e in omega (arith, t, i)
  Step-Inv {v} (unshare k rest r) i =
      omega (arith, laws.available-release 1 v.lock.semaphore, length-Removes r, i)
  Step-Inv {v} (begin_downgrade k h) i =
      omega (arith, laws.available-release v.lock.max_permits v.lock.semaphore, i)
  Step-Inv {v} (end_downgrade k rest l r e) i =
      let t = shared-takes v.lock l (downgrade-takes v.lock l e) in omega (arith, t, i)
  Step-Inv (fail_downgrade k rest r e) i = omega (arith, i)

  pub Reach-Inv : {w : World s} → Reach s w → Inv w
  Reach-Inv here = start-Inv
  Reach-Inv (next r st) = Step-Inv st (Reach-Inv r)

  -- In every state that clients can reach by any interleaving of their operations, at most one
  -- exclusive guard is out, no shared guard is out beside it, at most 100 shared guards are out, and
  -- the atomic counter is the number of shared guards, so it never wraps.
  pub lock_exclusion :
      {w : World s}
      → Reach s w
      → (w.exclusive ≤ 1)
        × (0 < w.exclusive → w.sharing ≡ [])
        × (length w.sharing ≤ max_shared_clients)
        × (w.lock.shared_count ≡ length w.sharing)
  lock_exclusion {w} r =
      let i = Reach-Inv r in
      (omega (arith, i), λ h. empty w.sharing (omega (arith, i)), omega (arith, i), i.counted)
    where
      empty : (ks : List ChannelKey) → length ks ≡ 0 → ks ≡ []
      empty [] e = refl
      empty (k ∷ ks) e = absurd (omega (arith, e))
