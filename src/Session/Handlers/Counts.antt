-- ===== src/Session/Handlers/Counts.antt =====
-- The subscribers of a tuner behind the operations of the pool that a session calls.
use recisdb_proxy_rs.Base.{
  ℕ, ◌+◌, ◌-◌, ◌^◌, ◌%◌, ◌≡◌, refl, sym, ap, ◌∙◌, Option, none, some, ltb, ◌==◌, if◌then◌else◌,
  arith, Bool-cases, inl, inr,
}
use recisdb_proxy_rs.Tuner.ChannelKey.{ChannelKey}
use recisdb_proxy_rs.Tuner.KeyMap.{lookup}
use recisdb_proxy_rs.Tuner.Pool.{
  TunerPool, SharedTuner, subscribe, unsubscribe, stop_reader, remove, put_arc,
}
use recisdb_proxy_rs.Tuner.Pool.Idle.{
  schedule_idle_close, schedule_from, spawn_idle_task, cancel_idle_close,
}
use recisdb_proxy_rs.Session.Handlers.{close_if_idle}

abbrev pub count : TunerPool → ℕ → ℕ
count p a = (p.arcs a).subscriber_count

-- Of a tuner that was written to memory.
put_arc-count :
    (a b : ℕ) (t : SharedTuner) (arcs : ℕ → SharedTuner) (n : ℕ)
    → t.subscriber_count ≡ n
    → (put_arc a t arcs b).subscriber_count ≡ (if b == a then n else (arcs b).subscriber_count)
unfolding put_arc
put_arc-count a b t arcs n h = elim (Bool-cases (b == a)) [ inl x ↦ rw x h | inr x ↦ rw x refl ]

-- A value that the tuner has already.
unchanged :
    (a b : ℕ) (p : TunerPool) (n : ℕ)
    → count p a ≡ n
    → count p b ≡ (if b == a then n else count p b)
unchanged a b p n h = elim (Bool-cases (b == a)) [
  | inl y ↦ (let same : b ≡ a = ground arith in rw y (ap (λ c. count p c) same ∙ h))
  | inr y ↦ rw y refl
]

pub subscribe-count :
    (a b : ℕ) (p : TunerPool)
    → count (subscribe a p) b ≡ (if b == a then (count p a + 1) % 2 ^ 32 else count p b)
unfolding subscribe
subscribe-count a b p = put_arc-count a b _ p.arcs _ refl

pub unsubscribe-count :
    (a b : ℕ) (p : TunerPool)
    → count (unsubscribe a p) b ≡ (if b == a then count p a - 1 else count p b)
unfolding unsubscribe
unsubscribe-count a b p = elim (Bool-cases (ltb 0 (count p a))) [
  | inl x ↦ rw x (put_arc-count a b _ p.arcs _ refl)
  | inr x ↦ rw x (unchanged a b p (count p a - 1) (ground arith))
]

stop_reader-count : (a b : ℕ) (p : TunerPool) → count (stop_reader a p) b ≡ count p b
unfolding stop_reader
stop_reader-count a b p =
    put_arc-count a b _ p.arcs (count p a) refl ∙ sym (unchanged a b p (count p a) refl)

schedule_from-count :
    (key : ChannelKey) (o : Option ℕ) (b : ℕ) (p : TunerPool)
    → count (schedule_from key o p) b ≡ count p b
unfolding schedule_from spawn_idle_task cancel_idle_close
schedule_from-count key (some handle) b p = refl
schedule_from-count key none b p = refl

schedule_idle_close-count :
    (key : ChannelKey) (a b : ℕ) (p : TunerPool) → count (schedule_idle_close key a p) b ≡ count p b
unfolding schedule_idle_close remove
schedule_idle_close-count key a b p = elim (Bool-cases (p.config.keep_alive_secs == 0)) [
  | inl x ↦ rw x (stop_reader-count a b p)
  | inr x ↦ rw x (schedule_from-count key (lookup key p.idle_tasks) b p)
]

pub close_if_idle-count : (a b : ℕ) (p : TunerPool) → count (close_if_idle a p) b ≡ count p b
unfolding close_if_idle
close_if_idle-count a b p = elim (Bool-cases (count p a == 0)) [
  | inl x ↦ rw x (schedule_idle_close-count (p.arcs a).key a b p)
  | inr x ↦ rw x refl
]
