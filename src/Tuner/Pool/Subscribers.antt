-- ===== src/Tuner/Pool/Subscribers.antt =====
-- Tuners with subscribers stay in the pool, and what `get_or_create` returns.
use recisdb_proxy_rs.Base.{
  ℕ, ◌<◌, ◌≡◌, ◌≢◌, refl, ◌∙◌, subst, true, false, Option, none, some, length, leb, arith,
  Bool-cases, Option-cases, inl, inr,
}
use recisdb_proxy_rs.Tuner.ChannelKey.{ChannelKey, key_eq, key_eq-eq}
use recisdb_proxy_rs.Tuner.KeyMap.{lookup, lookup-erase_other, lookup-retain, insert}
use recisdb_proxy_rs.Tuner.Pool.{
  TunerPool, TunerPoolError, SharedTuner, shared_new, remove, retain_subscribed, has_subscribers,
  is_stale, get,
}
use recisdb_proxy_rs.Tuner.Pool.Idle.{cancel_idle_close}
use recisdb_proxy_rs.Tuner.Pool.Create.{
  evict_from, evict, fast_from, fast_path, make_room, insert_new, call_factory, create, slow_from,
  slow_path, get_or_create,
}
use recisdb_proxy_rs.Tuner.Pool.Invariant.{put_arc_other}

-- The pool has tuner `a` for the key, which is `t`: with these subscribers, at least one, and with its
-- reader running or not as `t` says.
pub record IsHeld (k : ChannelKey) (a : ℕ) (t : SharedTuner) (p : TunerPool) : Type 0 where
  pub there : get k p ≡ some a
  pub same : p.arcs a ≡ t
  pub subscribed : has_subscribers p a ≡ true
  pub made : a < p.allocated

module _ (k : ChannelKey) (a : ℕ) (t : SharedTuner) where
  -- A key of a stale tuner, or of none, is another one.
  not_stale : (p : TunerPool) → IsHeld k a t p → is_stale p a ≡ false
  unfolding is_stale
  not_stale p h = ground (arith, h.subscribed)

  pub other_key :
      (key : ChannelKey) (p : TunerPool)
      → get key p ≢ some a
      → IsHeld k a t p
      → key_eq k key ≡ false
  other_key key p n h = elim (Bool-cases (key_eq k key)) [
    | inl x ↦ absurd (n (subst (λ j. get j p ≡ some a) (key_eq-eq k key x) h.there))
    | inr x ↦ x
  ]

  pub remove-IsHeld :
      (key : ChannelKey) (p : TunerPool)
      → key_eq k key ≡ false
      → IsHeld k a t p
      → IsHeld k a t (remove key p)
  unfolding remove get has_subscribers
  remove-IsHeld key p n h = record {
    there = lookup-erase_other k key p.tuners n ∙ h.there;
    same = h.same;
    subscribed = h.subscribed;
    made = h.made;
  }

  retain_subscribed-IsHeld : (p : TunerPool) → IsHeld k a t p → IsHeld k a t (retain_subscribed p)
  unfolding retain_subscribed get has_subscribers
  retain_subscribed-IsHeld p h = record {
    there = lookup-retain k a (has_subscribers p) p.tuners h.there h.subscribed;
    same = h.same;
    subscribed = h.subscribed;
    made = h.made;
  }

  insert_new-IsHeld :
      (key : ChannelKey) (p : TunerPool)
      → key_eq k key ≡ false
      → IsHeld k a t p
      → IsHeld k a t (insert_new key p)
  unfolding insert_new get insert lookup has_subscribers
  insert_new-IsHeld key p n h = record {
    there = rw n (lookup-erase_other k key p.tuners n ∙ h.there);
    same =
        let made : a < p.allocated = h.made in
        rw (put_arc_other p.allocated a (shared_new key) p.arcs (ground arith)) h.same;
    subscribed =
        let made : a < p.allocated = h.made in
        rw (put_arc_other p.allocated a (shared_new key) p.arcs (ground arith)) h.subscribed;
    made = omega (arith, h.made);
  }

  pub cancel-IsHeld :
      (key : ChannelKey) (p : TunerPool) → IsHeld k a t p → IsHeld k a t (cancel_idle_close key p)
  unfolding cancel_idle_close get has_subscribers
  cancel-IsHeld key p h = record {
    there = h.there;
    same = h.same;
    subscribed = h.subscribed;
    made = h.made;
  }

  -- The entry of the key is stale, or there is none: in both cases it is not ours.
  stale-other :
      (key : ChannelKey) (b : ℕ) (p : TunerPool)
      → get key p ≡ some b
      → is_stale p b ≡ true
      → IsHeld k a t p
      → key_eq k key ≡ false
  stale-other key b p e x h =
      let fresh : is_stale p a ≡ false = not_stale p h in
      other_key key p (λ e'. let same : b ≡ a = ground (arith, e, e') in cc) h

  missing-other :
      (key : ChannelKey) (p : TunerPool) → get key p ≡ none → IsHeld k a t p → key_eq k key ≡ false
  missing-other key p e h = other_key key p (λ e'. cc) h

  evict_from-IsHeld :
      (key : ChannelKey) (o : Option ℕ) (p : TunerPool)
      → get key p ≡ o
      → IsHeld k a t p
      → IsHeld k a t (evict_from key o p)
  unfolding evict_from
  evict_from-IsHeld key none p e h = h
  evict_from-IsHeld key (some b) p e h = elim (Bool-cases (is_stale p b)) [
    | inl x ↦ rw x (remove-IsHeld key p (stale-other key b p e x h) h)
    | inr x ↦ rw x h
  ]

  evict-IsHeld : (key : ChannelKey) (p : TunerPool) → IsHeld k a t p → IsHeld k a t (evict key p)
  unfolding evict
  evict-IsHeld key p h =
      let p' : TunerPool = cancel_idle_close key p in
      evict_from-IsHeld key (get key p') p' refl (cancel-IsHeld key p h)

  fast_from-IsHeld :
      (key : ChannelKey) (o : Option ℕ) (p : TunerPool)
      → IsHeld k a t p
      → IsHeld k a t (fast_from key o p).0
  unfolding fast_from
  fast_from-IsHeld key none p h = h
  fast_from-IsHeld key (some b) p h = elim (Bool-cases (is_stale p b)) [
    | inl x ↦ rw x (evict-IsHeld key p h)
    | inr x ↦ rw x (cancel-IsHeld key p h)
  ]

  make_room-IsHeld : (p : TunerPool) → IsHeld k a t p → IsHeld k a t (make_room p)
  unfolding make_room
  make_room-IsHeld p h = elim (Bool-cases (leb p.max_tuners (length p.tuners))) [
    | inl x ↦ rw x (retain_subscribed-IsHeld p h)
    | inr x ↦ rw x h
  ]

  call_factory-IsHeld :
      (key : ChannelKey) (factory : Option TunerPoolError) (p : TunerPool)
      → key_eq k key ≡ false
      → IsHeld k a t p
      → IsHeld k a t (call_factory key factory p).0
  unfolding call_factory
  call_factory-IsHeld key (some e) p n h = h
  call_factory-IsHeld key none p n h = insert_new-IsHeld key p n h

  create-IsHeld :
      (key : ChannelKey) (factory : Option TunerPoolError) (p : TunerPool)
      → key_eq k key ≡ false
      → IsHeld k a t p
      → IsHeld k a t (create key factory p).0
  unfolding create
  create-IsHeld key factory p n h =
      let p' : TunerPool = make_room p in
      elim (Bool-cases (leb p'.max_tuners (length p'.tuners))) [
        | inl x ↦ rw x (make_room-IsHeld p h)
        | inr x ↦ rw x (call_factory-IsHeld key factory p' n (make_room-IsHeld p h))
      ]

  slow_from-IsHeld :
      (key : ChannelKey) (factory : Option TunerPoolError) (o : Option ℕ) (p : TunerPool)
      → get key p ≡ o
      → IsHeld k a t p
      → IsHeld k a t (slow_from key factory o p).0
  unfolding slow_from
  slow_from-IsHeld key factory none p e h = create-IsHeld key factory p (missing-other key p e h) h
  slow_from-IsHeld key factory (some b) p e h =
      let p' : TunerPool = cancel_idle_close key p in
      let h' : IsHeld k a t p' = cancel-IsHeld key p h in
      elim (Bool-cases (is_stale p b)) [
        | inl x ↦
            (let n = stale-other key b p e x h in
              rw x (create-IsHeld key factory (remove key p') n (remove-IsHeld key p' n h')))
        | inr x ↦ rw x h'
      ]

  slow_path-IsHeld :
      (key : ChannelKey) (factory : Option TunerPoolError) (p : TunerPool)
      → IsHeld k a t p
      → IsHeld k a t (slow_path key factory p).0
  unfolding slow_path
  slow_path-IsHeld key factory p h = slow_from-IsHeld key factory (get key p) p refl h

  fast_path-IsHeld :
      (key : ChannelKey) (p : TunerPool) → IsHeld k a t p → IsHeld k a t (fast_path key p).0
  unfolding fast_path
  fast_path-IsHeld key p h = fast_from-IsHeld key (get key p) p h

  -- A call of `get_or_create`, for any key and whatever its factory returns, keeps every tuner that
  -- has a subscriber, under its key, with the number of its subscribers, and stops no such reader.
  pub get_or_create-IsHeld :
      (key : ChannelKey) (factory : Option TunerPoolError) (p : TunerPool)
      → IsHeld k a t p
      → IsHeld k a t (get_or_create key factory p).0
  unfolding get_or_create
  get_or_create-IsHeld key factory p h =
      let h' = fast_path-IsHeld key p h in
      elim (Option-cases (fast_path key p).1) [
        | inl e ↦ rw (e, get_or_create) (slow_path-IsHeld key factory (fast_path key p).0 h')
        | inr x ↦ rw (x.1, get_or_create) h'
      ]
