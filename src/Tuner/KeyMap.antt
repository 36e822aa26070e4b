-- ===== src/Tuner/KeyMap.antt =====
-- Hash maps from channel keys, as the pool uses them: lists of pairs, in which an insert replaces
-- the pair of its key.
use recisdb_proxy_rs.Base.{
  ◌≤◌, ◌≡◌, refl, Bool, true, false, Option, none, some, List, [], ◌∷◌, length, All, if◌then◌else◌,
  arith, Bool-cases, inl, inr, subst,
}
use recisdb_proxy_rs.Tuner.ChannelKey.{ChannelKey, key_eq, key_eq_refl, key_eq-eq}

abbrev pub KeyMap : Type 0 → Type 0
KeyMap A = List (ChannelKey × A)

module _ {A : Type 0} where
  unfoldable pub lookup : ChannelKey → KeyMap A → Option A
  lookup k [] = none
  lookup k (e ∷ m) = let later = lookup k m in if key_eq k e.0 then some e.1 else later

  unfoldable pub erase : ChannelKey → KeyMap A → KeyMap A
  erase k [] = []
  erase k (e ∷ m) = let later = erase k m in if key_eq k e.0 then later else e ∷ later

  unfoldable pub insert : ChannelKey → A → KeyMap A → KeyMap A
  unfolding erase
  insert k a m = (k, a) ∷ erase k m

  -- `retain` with a test of the value.
  unfoldable pub retain : (A → Bool) → KeyMap A → KeyMap A
  retain p [] = []
  retain p (e ∷ m) = let later = retain p m in if p e.1 then e ∷ later else later

  -- No key is there twice.
  abbrev pub IsDistinct : KeyMap A → Type 0
  IsDistinct [] = Unit
  IsDistinct (e ∷ m) = (lookup e.0 m ≡ none) × IsDistinct m

  pub lookup-erase_same : (k : ChannelKey) (m : KeyMap A) → lookup k (erase k m) ≡ none
  unfolding lookup erase
  lookup-erase_same k [] = refl
  lookup-erase_same k (e ∷ m) = ground (arith, lookup-erase_same k m)

  erase-keeps_none :
      (k l : ChannelKey) (m : KeyMap A) → lookup k m ≡ none → lookup k (erase l m) ≡ none
  unfolding lookup erase
  erase-keeps_none k l [] h = refl
  erase-keeps_none k l (e ∷ m) h = ground (arith, erase-keeps_none k l m)

  -- Another key's entry stays.
  pub lookup-erase_other :
      (k l : ChannelKey) (m : KeyMap A) → key_eq k l ≡ false → lookup k (erase l m) ≡ lookup k m
  unfolding lookup erase
  lookup-erase_other k l [] h = refl
  lookup-erase_other k l (e ∷ m) h = elim (Bool-cases (key_eq l e.0)) [
    | inl x ↦
        (let same : l ≡ e.0 = key_eq-eq l e.0 x in
          let other : key_eq k e.0 ≡ false = subst (λ j. key_eq k j ≡ false) same h in
          rw (x, other) (lookup-erase_other k l m h))
    | inr x ↦ rw x (rw (lookup-erase_other k l m h) refl)
  ]

  pub lookup-insert : (k : ChannelKey) (a : A) (m : KeyMap A) → lookup k (insert k a m) ≡ some a
  unfolding lookup insert
  lookup-insert k a m = rw (key_eq_refl k) refl

  -- A value that passes the test stays.
  pub lookup-retain :
      (k : ChannelKey) (a : A) (p : A → Bool) (m : KeyMap A)
      → lookup k m ≡ some a
      → p a ≡ true
      → lookup k (retain p m) ≡ some a
  unfolding lookup retain
  lookup-retain k a p [] h t = h
  lookup-retain k a p (e ∷ m) h t = ground (arith, lookup-retain k a p m)

  retain-keeps_none :
      (k : ChannelKey) (p : A → Bool) (m : KeyMap A)
      → lookup k m ≡ none
      → lookup k (retain p m) ≡ none
  unfolding lookup retain
  retain-keeps_none k p [] h = refl
  retain-keeps_none k p (e ∷ m) h = ground (arith, retain-keeps_none k p m)

  pub erase-IsDistinct : (k : ChannelKey) (m : KeyMap A) → IsDistinct m → IsDistinct (erase k m)
  unfolding erase
  erase-IsDistinct k [] d = tt
  erase-IsDistinct k (e ∷ m) d = ground (arith, erase-IsDistinct k m, erase-keeps_none e.0 k m)

  pub insert-IsDistinct :
      (k : ChannelKey) (a : A) (m : KeyMap A) → IsDistinct m → IsDistinct (insert k a m)
  unfolding insert
  insert-IsDistinct k a m d = (lookup-erase_same k m, erase-IsDistinct k m d)

  pub retain-IsDistinct : (p : A → Bool) (m : KeyMap A) → IsDistinct m → IsDistinct (retain p m)
  unfolding retain
  retain-IsDistinct p [] d = tt
  retain-IsDistinct p (e ∷ m) d = ground (arith, retain-IsDistinct p m, retain-keeps_none e.0 p m)

  pub length-erase : (k : ChannelKey) (m : KeyMap A) → length (erase k m) ≤ length m
  unfolding erase
  length-erase k [] = omega arith
  length-erase k (e ∷ m) = ground (arith, length-erase k m)

  pub length-retain : (p : A → Bool) (m : KeyMap A) → length (retain p m) ≤ length m
  unfolding retain
  length-retain p [] = omega arith
  length-retain p (e ∷ m) = ground (arith, length-retain p m)

  module _ (P : ChannelKey × A → Type 0) where
    pub All-erase : (k : ChannelKey) (m : KeyMap A) → All P m → All P (erase k m)
    unfolding erase
    All-erase k [] h = tt
    All-erase k (e ∷ m) h = ground (arith, All-erase k m)

    pub All-retain : (p : A → Bool) (m : KeyMap A) → All P m → All P (retain p m)
    unfolding retain
    All-retain p [] h = tt
    All-retain p (e ∷ m) h = ground (arith, All-retain p m)

  pub retain-All : (p : A → Bool) (m : KeyMap A) → All (λ e. p e.1 ≡ true) (retain p m)
  unfolding retain
  retain-All p [] = tt
  retain-All p (e ∷ m) = ground (arith, retain-All p m)
