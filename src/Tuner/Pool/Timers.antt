-- ===== src/Tuner/Pool/Timers.antt =====
-- What the timers of idle tuners close, and a way to lose one.
use recisdb_proxy_rs.Base.{
  ℕ, ◌≡◌, ◌≢◌, refl, subst, true, false, Option, none, some, [], ◌∷◌, All, ◌==◌, arith, Bool-cases,
  inl, inr,
}
use recisdb_proxy_rs.Tuner.ChannelKey.{ChannelKey, key_eq_refl}
use recisdb_proxy_rs.Tuner.KeyMap.{KeyMap, lookup, erase, insert, lookup-erase_same, All-erase}
use recisdb_proxy_rs.Tuner.Pool.{
  TunerPool, SharedTuner, IdleTask, stop_reader, has_subscribers, get,
}
use recisdb_proxy_rs.Tuner.Pool.Idle.{
  cancel_idle_close, spawn_idle_task, schedule_from, schedule_idle_close, remove_if_same,
  remove_stopped, end_task, expire_start, expire_finish, holds, is_canceled,
}
use recisdb_proxy_rs.Tuner.Pool.Invariant.{IsPool, IsTimer, put_arc_other}
use recisdb_proxy_rs.Tuner.Pool.Subscribers.{IsHeld, other_key, remove-IsHeld, cancel-IsHeld}

module _ (k : ChannelKey) (a : ℕ) (s : SharedTuner) where
  stop_reader-IsHeld :
      (b : ℕ) (p : TunerPool) → (a == b) ≡ false → IsHeld k a s p → IsHeld k a s (stop_reader b p)
  unfolding stop_reader get has_subscribers
  stop_reader-IsHeld b p n h = record {
    there = h.there;
    same = rw (put_arc_other b a _ p.arcs n) h.same;
    subscribed = rw (put_arc_other b a _ p.arcs n) h.subscribed;
    made = h.made;
  }

  remove_if_same-IsHeld :
      (key : ChannelKey) (b : ℕ) (o : Option ℕ) (p : TunerPool)
      → get key p ≡ o
      → (a == b) ≡ false
      → IsHeld k a s p
      → IsHeld k a s (remove_if_same key b o p)
  unfolding remove_if_same
  remove_if_same-IsHeld key b none p e n h = h
  remove_if_same-IsHeld key b (some c) p e n h = elim (Bool-cases (c == b)) [
    | inl x ↦ rw x (
        remove-IsHeld k a s key p
          (other_key k a s key p
            (λ e'. let same : c ≡ a = ground (arith, e, e') in absurd (ground (arith, same, x, n)))
            h)
          h)
    | inr x ↦ rw x h
  ]

  end_task-IsHeld : (t : IdleTask) (p : TunerPool) → IsHeld k a s p → IsHeld k a s (end_task t p)
  unfolding end_task cancel_idle_close
  end_task-IsHeld t p h = cancel-IsHeld k a s t.key p h

  -- A tuner that has subscribers is not the one of a timer that found none.
  other_tuner :
      (b : ℕ) (p : TunerPool) → has_subscribers p b ≡ false → IsHeld k a s p → (a == b) ≡ false
  other_tuner b p n h = elim (Bool-cases (a == b)) [
    | inl y ↦
        (let same : a ≡ b = ground arith in
          let yes : has_subscribers p b ≡ true =
            subst (λ c. has_subscribers p c ≡ true) same h.subscribed in
          cc)
    | inr y ↦ y
  ]

-- A timer wakes up, for whichever key and tuner it was set. A tuner that has subscribers at this moment
-- stays in the pool as it is, its reader not stopped. However the pool has changed when the task goes on,
-- after it has stopped a reader or not, the tuner, if it is still in the pool with subscribers, also stays
-- there as it then is.
pub expire-IsHeld :
    (k : ChannelKey) (a : ℕ) (s s' : SharedTuner) (t : IdleTask) (p q : TunerPool)
    → IsHeld k a s p
    → IsHeld k a s' q
    → IsHeld k a s (expire_start t p).0 × IsHeld k a s' (expire_finish (expire_start t p).1 t q)
unfolding expire_start expire_finish remove_stopped
expire-IsHeld k a s s' t p q h h' = elim (Bool-cases (has_subscribers p t.tuner)) [
  | inl x ↦ rw x (h, end_task-IsHeld k a s' t q h')
  | inr x ↦
      (let n : (a == t.tuner) ≡ false = other_tuner k a s t.tuner p x h in
        rw x (
          stop_reader-IsHeld k a s t.tuner p n h,
          end_task-IsHeld k a s' t _
              (remove_if_same-IsHeld k a s' t.key t.tuner (get t.key q) q refl n h'),
        ))
]

holds-none : (n : ℕ) (m : KeyMap ℕ) → All (IsTimer n) m → holds n m ≡ false
unfolding holds
holds-none n [] h = refl
holds-none n (e ∷ m) h = ground (arith, holds-none n m, h.0)

-- The new timer is set: the canceled one has left the map.
scheduled :
    (key : ChannelKey) (a : ℕ) (p : TunerPool)
    → p.config.keep_alive_secs ≢ 0
    → schedule_idle_close key a (cancel_idle_close key p)
      ≡ spawn_idle_task key (cancel_idle_close key (cancel_idle_close key p))
unfolding schedule_idle_close cancel_idle_close schedule_from
scheduled key a p n =
    let on : (p.config.keep_alive_secs == 0) ≡ false = ground (arith, n) in
    rw on (rw (lookup-erase_same key p.idle_tasks) refl)

-- A timer of a tuner is canceled and, before its task has woken up, a new one is set. The task then
-- ends, and takes the sender of the new timer with it: the new timer counts as canceled, and no timer
-- is left for the key.
pub end_task-loses_timer :
    (t : IdleTask) (a : ℕ) (p : TunerPool)
    → IsPool p
    → p.config.keep_alive_secs ≢ 0
    → (let later = end_task t (schedule_idle_close t.key a (cancel_idle_close t.key p)) in
        (lookup t.key later.idle_tasks ≡ none)
        × (is_canceled (record { handle = p.spawned; key = t.key; tuner = a }) later ≡ true))
unfolding end_task is_canceled spawn_idle_task cancel_idle_close insert erase
end_task-loses_timer t a p h n =
    let k = t.key in
    let m = p.idle_tasks in
    let P = IsTimer p.spawned in
    let rest : All P (erase k (erase k (erase k (erase k m)))) =
      All-erase P k _ (All-erase P k _ (All-erase P k _ (All-erase P k m h.timers))) in
    rw (scheduled k a p n) (
      rw (key_eq_refl k) (
        lookup-erase_same k (erase k (erase k (erase k m))),
        rw (holds-none p.spawned _ rest) refl,
      ))
