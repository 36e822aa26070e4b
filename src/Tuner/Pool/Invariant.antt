-- ===== src/Tuner/Pool/Invariant.antt =====
-- What the operations of the pool keep: no key twice, no more tuners than the maximum, each entry
-- with a tuner that was made for its key, and each timer with a sender of its own task.
use recisdb_proxy_rs.Base.{
  ℕ, suc, ◌≤◌, ◌<◌, ◌≡◌, refl, ap, ==_refl, ◌∙◌, false, [], ◌∷◌, length, All, ltb, ◌==◌, arith,
  Bool-cases, inl, inr,
}
use recisdb_proxy_rs.Tuner.ChannelKey.{ChannelKey}
use recisdb_proxy_rs.Tuner.KeyMap.{
  KeyMap, IsDistinct, insert, erase-IsDistinct, insert-IsDistinct, retain-IsDistinct, length-erase,
  length-retain, All-erase, All-retain,
}
use recisdb_proxy_rs.Tuner.Pool.{
  TunerPool, TunerPoolConfig, SharedTuner, put_arc, shared_new, new_with_config, subscribe,
  unsubscribe, stop_reader, remove, retain_subscribed, has_subscribers,
}
use recisdb_proxy_rs.Tuner.Pool.Idle.{cancel_idle_close, spawn_idle_task}
use recisdb_proxy_rs.Tuner.Pool.Create.{insert_new}

-- A tuner that was made, for the key of its entry.
abbrev pub IsEntry : (ℕ → SharedTuner) → ℕ → ChannelKey × ℕ → Type 0
IsEntry arcs allocated e = (e.1 < allocated) × ((arcs e.1).key ≡ e.0)

abbrev pub IsTimer : ℕ → ChannelKey × ℕ → Type 0
IsTimer spawned e = e.1 < spawned

pub record IsPool (p : TunerPool) : Type 0 where
  pub distinct : IsDistinct p.tuners
  pub capacity : length p.tuners ≤ p.max_tuners
  pub entries : All (IsEntry p.arcs p.allocated) p.tuners
  pub one_timer : IsDistinct p.idle_tasks
  pub timers : All (IsTimer p.spawned) p.idle_tasks

pub new-IsPool :
    (unused : ℕ → SharedTuner) (max_tuners : ℕ) (config : TunerPoolConfig)
    → IsPool (new_with_config unused max_tuners config)
unfolding new_with_config
new-IsPool unused max_tuners config = record {
  distinct = tt;
  capacity = omega arith;
  entries = tt;
  one_timer = tt;
  timers = tt;
}

-- Memory that keeps the keys of the tuners that were made.
entries-same_keys :
    (arcs arcs' : ℕ → SharedTuner) (n n' : ℕ) (m : KeyMap ℕ)
    → ((a : ℕ) → a < n → (arcs' a).key ≡ (arcs a).key)
    → n ≤ n'
    → All (IsEntry arcs n) m
    → All (IsEntry arcs' n') m
entries-same_keys arcs arcs' n n' [] k l h = tt
entries-same_keys arcs arcs' n n' (e ∷ m) k l h =
    ((omega (arith, h.0.0), k e.1 h.0.0 ∙ h.0.1), entries-same_keys arcs arcs' n n' m k l h.1)

pub put_arc_same : (a : ℕ) (t : SharedTuner) (arcs : ℕ → SharedTuner) → put_arc a t arcs a ≡ t
unfolding put_arc
put_arc_same a t arcs = rw (==_refl a) refl

pub put_arc_other :
    (a b : ℕ) (t : SharedTuner) (arcs : ℕ → SharedTuner)
    → (b == a) ≡ false
    → put_arc a t arcs b ≡ arcs b
unfolding put_arc
put_arc_other a b t arcs h = rw h refl

put_arc-key :
    (a : ℕ) (t : SharedTuner) (arcs : ℕ → SharedTuner)
    → t.key ≡ (arcs a).key
    → (b : ℕ) → (put_arc a t arcs b).key ≡ (arcs b).key
unfolding put_arc
put_arc-key a t arcs h b = elim (Bool-cases (b == a)) [
  | inl x ↦ (let same : b ≡ a = ground arith in rw x (rw same h))
  | inr x ↦ rw x refl
]

pub put-IsPool :
    (p : TunerPool) (a : ℕ) (t : SharedTuner)
    → t.key ≡ (p.arcs a).key
    → IsPool p
    → IsPool (record p { arcs = put_arc a t p.arcs })
put-IsPool p a t k h = record {
  distinct = h.distinct;
  capacity = h.capacity;
  entries =
      entries-same_keys p.arcs (put_arc a t p.arcs) p.allocated p.allocated p.tuners
        (λ b l. put_arc-key a t p.arcs k b) (omega arith) h.entries;
  one_timer = h.one_timer;
  timers = h.timers;
}

pub remove-IsPool : (key : ChannelKey) (p : TunerPool) → IsPool p → IsPool (remove key p)
unfolding remove
remove-IsPool key p h = record {
  distinct = erase-IsDistinct key p.tuners h.distinct;
  capacity = omega (arith, length-erase key p.tuners, h.capacity);
  entries = All-erase (IsEntry p.arcs p.allocated) key p.tuners h.entries;
  one_timer = h.one_timer;
  timers = h.timers;
}

pub retain_subscribed-IsPool : (p : TunerPool) → IsPool p → IsPool (retain_subscribed p)
unfolding retain_subscribed
retain_subscribed-IsPool p h = record {
  distinct = retain-IsDistinct (has_subscribers p) p.tuners h.distinct;
  capacity = omega (arith, length-retain (has_subscribers p) p.tuners, h.capacity);
  entries = All-retain (IsEntry p.arcs p.allocated) (has_subscribers p) p.tuners h.entries;
  one_timer = h.one_timer;
  timers = h.timers;
}

pub cancel_idle_close-IsPool :
    (key : ChannelKey) (p : TunerPool) → IsPool p → IsPool (cancel_idle_close key p)
unfolding cancel_idle_close
cancel_idle_close-IsPool key p h = record {
  distinct = h.distinct;
  capacity = h.capacity;
  entries = h.entries;
  one_timer = erase-IsDistinct key p.idle_tasks h.one_timer;
  timers = All-erase (IsTimer p.spawned) key p.idle_tasks h.timers;
}

pub subscribe-IsPool : (a : ℕ) (p : TunerPool) → IsPool p → IsPool (subscribe a p)
unfolding subscribe
subscribe-IsPool a p h = put-IsPool p a _ refl h

pub unsubscribe-IsPool : (a : ℕ) (p : TunerPool) → IsPool p → IsPool (unsubscribe a p)
unfolding unsubscribe
unsubscribe-IsPool a p h = elim (Bool-cases (ltb 0 (p.arcs a).subscriber_count)) [
  | inl x ↦ rw x (put-IsPool p a _ refl h)
  | inr x ↦ rw x h
]

pub stop_reader-IsPool : (a : ℕ) (p : TunerPool) → IsPool p → IsPool (stop_reader a p)
unfolding stop_reader
stop_reader-IsPool a p h = put-IsPool p a _ refl h

timers-later : (n : ℕ) (m : KeyMap ℕ) → All (IsTimer n) m → All (IsTimer (suc n)) m
timers-later n [] h = tt
timers-later n (e ∷ m) h = (omega (arith, h.0), timers-later n m h.1)

pub spawn_idle_task-IsPool :
    (key : ChannelKey) (p : TunerPool) → IsPool p → IsPool (spawn_idle_task key p)
unfolding spawn_idle_task insert
spawn_idle_task-IsPool key p h = record {
  distinct = h.distinct;
  capacity = h.capacity;
  entries = h.entries;
  one_timer = insert-IsDistinct key p.spawned p.idle_tasks h.one_timer;
  timers = (
    omega arith,
    All-erase (IsTimer (suc p.spawned)) key p.idle_tasks
        (timers-later p.spawned p.idle_tasks h.timers),
  );
}

pub insert_new-IsPool :
    (key : ChannelKey) (p : TunerPool)
    → length p.tuners < p.max_tuners
    → IsPool p
    → IsPool (insert_new key p)
unfolding insert_new insert put_arc shared_new
insert_new-IsPool key p l h =
    let arcs' = put_arc p.allocated (shared_new key) p.arcs in
    let kept : (a : ℕ) → a < p.allocated → (arcs' a).key ≡ (p.arcs a).key = λ a below.
      ap (λ t. t.key) (put_arc_other p.allocated a (shared_new key) p.arcs (ground arith)) in
    record {
      distinct = insert-IsDistinct key p.allocated p.tuners h.distinct;
      capacity = omega (arith, length-erase key p.tuners, l);
      entries = (
        (omega arith, ap (λ t. t.key) (put_arc_same p.allocated (shared_new key) p.arcs)),
        All-erase (IsEntry arcs' (suc p.allocated)) key p.tuners (
            entries-same_keys p.arcs arcs' p.allocated (suc p.allocated) p.tuners kept (omega arith)
              h.entries),
      );
      one_timer = h.one_timer;
      timers = h.timers;
    }
