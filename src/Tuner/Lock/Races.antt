-- ===== src/Tuner/Lock/Races.antt =====
-- What the calls of the lock do not guarantee when they interleave.
use recisdb_proxy_rs.Base.{
  ◌+◌, ◌%◌, ◌≤◌, ◌≡◌, refl, ap, ◌∙◌, Option, none, some, Option-cases, inl, inr, List, [], ◌∷◌,
  length, arith, ok, err, panicked,
}
use recisdb_proxy_rs.Tuner.ChannelKey.{ChannelKey, key_eq_refl}
use recisdb_proxy_rs.Tuner.Semaphore.{Semaphore, IsSemaphore}
use recisdb_proxy_rs.Tuner.Lock.{
  TunerLock, acquire_failed, try_acquire_exclusive, drop_exclusive, check_channel, take_shared,
  set_channel, downgrade_release, downgrade_acquire,
}
use recisdb_proxy_rs.Tuner.Lock.Steps.{
  World, Removes, start, exclude, tune, unexclude, check, share, begin_downgrade, fail_downgrade,
  Reach, here, next,
}
use recisdb_proxy_rs.Tuner.Lock.Exclusion.{free, Reach-Inv}

Option-absurd {ℓ} : {A : Type ℓ} {a : A} → none ≡ some a → ⊥
Option-absurd e = cc

some-eq {ℓ} : {A : Type ℓ} {a b : A} → some a ≡ some b → a ≡ b
some-eq e = cc

module _ (s : Semaphore) (laws : IsSemaphore s) where
  exclusive-succeeds :
      (l : TunerLock s)
      → l.max_permits ≤ free s laws l
      → (m : TunerLock s) × (try_acquire_exclusive s l ≡ ok m)
        × (m.current_channel ≡ l.current_channel)
  unfolding try_acquire_exclusive
  exclusive-succeeds l h =
      let (p, e) = laws.acquire_available l.max_permits l.semaphore h in
      (record l { semaphore = p }, rw (e, try_acquire_exclusive) refl, refl)

  share-succeeds :
      (l : TunerLock s)
      → 1 ≤ free s laws l
      → (m : TunerLock s) × (take_shared s l ≡ ok m)
        × (m.current_channel ≡ l.current_channel)
        × (free s laws m + 1 ≡ free s laws l)
  unfolding take_shared
  share-succeeds l h =
      let (p, e) = laws.acquire_available 1 l.semaphore h in
      (
        record l { semaphore = p; shared_count = (l.shared_count + 1) % 4294967296 },
        rw (e, take_shared) refl,
        refl,
        laws.available-acquire 1 l.semaphore p e,
      )

  share-fails : (l : TunerLock s) → free s laws l ≡ 0 → take_shared s l ≡ err acquire_failed
  unfolding take_shared
  share-fails l h = elim (Option-cases (s.try_acquire_many 1 l.semaphore)) [
    | inl e ↦ rw (e, take_shared) refl
    | inr (p, e) ↦ absurd (omega (arith, laws.available-acquire 1 l.semaphore p e, h))
  ]

  downgrade-fails : (l : TunerLock s) → free s laws l ≡ 0 → downgrade_acquire s l ≡ panicked
  unfolding downgrade_acquire
  downgrade-fails l h = rw (share-fails l h, downgrade_acquire) refl

  check-ok :
      (k : ChannelKey) (current : Option ChannelKey)
      → current ≡ some k
      → check_channel s k current ≡ ok tt
  unfolding check_channel
  check-ok k none e = absurd (Option-absurd e)
  check-ok k (some c) e = let same : c ≡ k = some-eq e in rw same (rw (key_eq_refl k) refl)

  -- What a client leaves behind that takes the lock alone, tunes to `k` and drops its guard.
  pub record Idle (k : ChannelKey) (waiting : List ChannelKey) (w : World s) : Type 0 where
    pub reached : Reach s w
    pub alone : w.exclusive ≡ 0
    pub nobody : w.sharing ≡ []
    pub waits : w.checked ≡ waiting
    pub tuned : w.lock.current_channel ≡ some k

  retune :
      (k : ChannelKey) (w : World s)
      → Reach s w
      → w.exclusive ≡ 0
      → w.sharing ≡ []
      → (v : World s) × Idle k w.checked v
  unfolding drop_exclusive set_channel
  retune k w r a n =
      let i = Reach-Inv s laws r in
      let (l, took, keeps) = exclusive-succeeds w.lock (omega (arith, i, ap length n)) in
      let r₁ = next r (exclude l took) in
      let r₂ = next r₁ (tune k (omega arith)) in
      let r₃ = next r₂ (unexclude (omega arith)) in
      (_, record { reached = r₃; alone = omega (arith, a); nobody = n; waits = refl; tuned = refl })

  -- The check of the channel and the permit of `acquire_shared` are two steps. For any two channels
  -- there is an interleaving after which a client holds a shared guard that it asked for on the
  -- first while the lock is tuned to the second.
  pub shared_guard_on_other_channel :
      (k₁ k₂ : ChannelKey)
      → (w : World s) × Reach s w × (w.sharing ≡ k₁ ∷ []) × (w.lock.current_channel ≡ some k₂)
  unfolding start
  shared_guard_on_other_channel k₁ k₂ =
      let (w₁, i₁) = retune k₁ (start s) here refl refl in
      let passed = check-ok k₁ w₁.lock.current_channel i₁.tuned in
      let r₂ = next i₁.reached (check k₁ passed) in
      let (w₃, i₃) = retune k₂ (record w₁ { checked = k₁ ∷ w₁.checked }) r₂ i₁.alone i₁.nobody in
      let inv = Reach-Inv s laws i₃.reached in
      let (l, took, keeps, left) =
        share-succeeds w₃.lock (omega (arith, inv, ap length i₃.nobody, i₃.alone)) in
      let removes : Removes k₁ w₃.checked w₁.checked = record {
        before = [];
        after = w₁.checked;
        with_it = i₃.waits;
        without_it = refl;
      } in
      (
        _,
        next i₃.reached (share k₁ w₁.checked l removes took),
        ap (◌∷◌ k₁) i₃.nobody,
        keeps ∙ i₃.tuned,
      )

  -- `downgrade` gives back its permits before it takes one. For every channel there is an
  -- interleaving in which another client takes them all in between, and `downgrade` panics.
  pub downgrade_can_panic : (k : ChannelKey) → (w : World s) × Reach s w × (w.panics ≡ 1)
  unfolding start
  downgrade_can_panic k =
      let i₀ = Reach-Inv s laws here in
      let (l₁, took₁, _) = exclusive-succeeds (start s).lock (omega (arith, i₀)) in
      let r₁ = next here (exclude l₁ took₁) in
      let r₂ = next r₁ (begin_downgrade k (omega arith)) in
      let i₂ = Reach-Inv s laws r₂ in
      let (l₃, took₃, _) = exclusive-succeeds (downgrade_release s k l₁) (omega (arith, i₂)) in
      let r₃ = next r₂ (exclude l₃ took₃) in
      let i₃ = Reach-Inv s laws r₃ in
      let removes : Removes k (k ∷ []) [] = record {
        before = [];
        after = [];
        with_it = refl;
        without_it = refl;
      } in
      (
        _,
        next r₃ (fail_downgrade k [] removes (downgrade-fails l₃ (omega (arith, i₃)))),
        omega arith,
      )
