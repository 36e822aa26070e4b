-- ===== src/Tuner/Pool/Returned.antt =====
-- What `get_or_create` returns.
use recisdb_proxy_rs.Base.{
  ℕ, ◌≤◌, ◌≡◌, refl, ap, ◌∙◌, true, Option, none, some, length, All, leb, arith, Bool-cases,
  Option-cases, inl, inr, Outcome, ok, err,
}
use recisdb_proxy_rs.Tuner.ChannelKey.{ChannelKey}
use recisdb_proxy_rs.Tuner.KeyMap.{lookup-insert, retain-All}
use recisdb_proxy_rs.Tuner.Pool.{
  TunerPool, TunerPoolError, remove, retain_subscribed, has_subscribers, is_stale, get,
}
use recisdb_proxy_rs.Tuner.Pool.Idle.{cancel_idle_close}
use recisdb_proxy_rs.Tuner.Pool.Create.{
  fast_from, fast_path, make_room, insert_new, call_factory, create, slow_from, slow_path,
  get_or_create,
}

-- `key` is in the pool with the tuner.
abbrev Returns : ChannelKey → TunerPool × Outcome TunerPoolError ℕ → Type 0
Returns key r = (a : ℕ) → r.1 ≡ ok a → get key r.0 ≡ some a

call_factory-Returns :
    (key : ChannelKey) (factory : Option TunerPoolError) (p : TunerPool)
    → Returns key (call_factory key factory p)
unfolding call_factory insert_new get
call_factory-Returns key (some e) p a r = cc
call_factory-Returns key none p a r =
    let same : p.allocated ≡ a = ground (arith, r) in
    lookup-insert key p.allocated p.tuners ∙ ap (λ b. some b) same

create-Returns :
    (key : ChannelKey) (factory : Option TunerPoolError) (p : TunerPool)
    → Returns key (create key factory p)
unfolding create
create-Returns key factory p =
    let p' : TunerPool = make_room p in
    elim (Bool-cases (leb p'.max_tuners (length p'.tuners))) [
      | inl x ↦ rw x λ a r. cc
      | inr x ↦ rw x (call_factory-Returns key factory p')
    ]

slow_from-Returns :
    (key : ChannelKey) (factory : Option TunerPoolError) (o : Option ℕ) (p : TunerPool)
    → get key p ≡ o
    → Returns key (slow_from key factory o p)
unfolding slow_from cancel_idle_close get
slow_from-Returns key factory none p e = create-Returns key factory p
slow_from-Returns key factory (some b) p e = elim (Bool-cases (is_stale p b)) [
  | inl x ↦ rw x (create-Returns key factory (remove key (cancel_idle_close key p)))
  | inr x ↦ rw x λ a r. e ∙ ap (λ c. some c) (ground (arith, r))
]

fast_from-there :
    (key : ChannelKey) (o : Option ℕ) (p : TunerPool)
    → get key p ≡ o
    → (a : ℕ) → (fast_from key o p).1 ≡ some a
    → get key (fast_from key o p).0 ≡ some a
unfolding fast_from cancel_idle_close get
fast_from-there key none p e = λ a r. cc
fast_from-there key (some b) p e = elim (Bool-cases (is_stale p b)) [
  | inl x ↦ rw x λ a r. cc
  | inr x ↦ rw x λ a r. e ∙ ap (λ c. some c) (ground (arith, r))
]

fast_path-there :
    (key : ChannelKey) (p : TunerPool) (a : ℕ)
    → (fast_path key p).1 ≡ some a
    → get key (fast_path key p).0 ≡ some a
unfolding fast_path
fast_path-there key p = fast_from-there key (get key p) p refl

slow_path-Returns :
    (key : ChannelKey) (factory : Option TunerPoolError) (p : TunerPool)
    → Returns key (slow_path key factory p)
unfolding slow_path
slow_path-Returns key factory p = slow_from-Returns key factory (get key p) p refl

-- A tuner that `get_or_create` returns is in the pool, under the key that was asked for.
pub get_or_create-there :
    (key : ChannelKey) (factory : Option TunerPoolError) (p : TunerPool) (a : ℕ)
    → (get_or_create key factory p).1 ≡ ok a
    → get key (get_or_create key factory p).0 ≡ some a
unfolding get_or_create
get_or_create-there key factory p a = elim (Option-cases (fast_path key p).1) [
  | inl e ↦ rw (e, get_or_create) (slow_path-Returns key factory (fast_path key p).0 a)
  | inr x ↦
      rw (x.1, get_or_create)
        λ r. fast_path-there key p a (x.1 ∙ ap (λ c. some c) (ground (arith, r)))
]

-- As many tuners as the maximum, each with a subscriber.
abbrev pub IsFull : TunerPool → Type 0
IsFull p = (p.max_tuners ≤ length p.tuners) × All (λ e. has_subscribers p e.1 ≡ true) p.tuners

-- An error leaves a pool that is full.
abbrev Refuses : TunerPool × Outcome TunerPoolError ℕ → Type 0
Refuses r = (e : TunerPoolError) → r.1 ≡ err e → IsFull r.0

retained :
    (p : TunerPool)
    → All (λ e. has_subscribers (retain_subscribed p) e.1 ≡ true) (retain_subscribed p).tuners
unfolding retain_subscribed has_subscribers
retained p = retain-All (has_subscribers p) p.tuners

make_room-IsFull :
    (p : TunerPool) → (make_room p).max_tuners ≤ length (make_room p).tuners → IsFull (make_room p)
unfolding make_room
make_room-IsFull p = elim (Bool-cases (leb p.max_tuners (length p.tuners))) [
  | inl x ↦ rw x λ l. (l, retained p)
  | inr x ↦ rw x λ l. absurd (ground arith)
]

create-Refuses : (key : ChannelKey) (p : TunerPool) → Refuses (create key none p)
unfolding create call_factory
create-Refuses key p =
    let p' : TunerPool = make_room p in
    elim (Bool-cases (leb p'.max_tuners (length p'.tuners))) [
      | inl x ↦ rw x λ e r. make_room-IsFull p (ground arith)
      | inr x ↦ rw x λ e r. cc
    ]

slow_from-Refuses :
    (key : ChannelKey) (o : Option ℕ) (p : TunerPool) → Refuses (slow_from key none o p)
unfolding slow_from
slow_from-Refuses key none p = create-Refuses key p
slow_from-Refuses key (some b) p = elim (Bool-cases (is_stale p b)) [
  | inl x ↦ rw x (create-Refuses key (remove key (cancel_idle_close key p)))
  | inr x ↦ rw x λ e r. cc
]

slow_path-Refuses : (key : ChannelKey) (p : TunerPool) → Refuses (slow_path key none p)
unfolding slow_path
slow_path-Refuses key p = slow_from-Refuses key (get key p) p

-- When the factory succeeds, `get_or_create` fails only for want of room: the pool then holds as many
-- tuners as its maximum, and each of them has a subscriber.
pub get_or_create-IsFull :
    (key : ChannelKey) (p : TunerPool) (e : TunerPoolError)
    → (get_or_create key none p).1 ≡ err e
    → IsFull (get_or_create key none p).0
unfolding get_or_create
get_or_create-IsFull key p e = elim (Option-cases (fast_path key p).1) [
  | inl f ↦ rw (f, get_or_create) (slow_path-Refuses key (fast_path key p).0 e)
  | inr x ↦ rw (x.1, get_or_create) λ r. cc
]
