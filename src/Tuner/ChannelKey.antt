-- ===== src/Tuner/ChannelKey.antt =====
-- recisdb-proxy/src/tuner/channel_key.rs.
use recisdb_proxy_rs.Base.{ℕ, ◌≡◌, refl, Bool, true, false, ◌&&◌, List, [], ◌∷◌, ◌==◌, arith}

pub data ChannelKeySpec : Type 0 where
  simple : (channel : ℕ) → ChannelKeySpec
  space_channel : (space channel : ℕ) → ChannelKeySpec

-- The path is a string's bytes.
pub record ChannelKey : Type 0 where
  pub tuner_path : List ℕ
  pub channel : ChannelKeySpec

-- The derived `==`.
text_eq : List ℕ → List ℕ → Bool
text_eq [] [] = true
text_eq (x ∷ xs) (y ∷ ys) = (x == y) && text_eq xs ys
text_eq _ _ = false

spec_eq : ChannelKeySpec → ChannelKeySpec → Bool
spec_eq (simple a) (simple b) = a == b
spec_eq (space_channel s a) (space_channel t b) = (s == t) && (a == b)
spec_eq _ _ = false

unfoldable pub key_eq : ChannelKey → ChannelKey → Bool
unfolding text_eq spec_eq
key_eq k l = text_eq k.tuner_path l.tuner_path && spec_eq k.channel l.channel

text_eq-eq : (xs ys : List ℕ) → text_eq xs ys ≡ true → xs ≡ ys
unfolding text_eq
text_eq-eq [] [] h = refl
text_eq-eq [] (y ∷ ys) h = cc
text_eq-eq (x ∷ xs) [] h = cc
text_eq-eq (x ∷ xs) (y ∷ ys) h = ground (arith, text_eq-eq xs ys)

text_eq_refl : (xs : List ℕ) → text_eq xs xs ≡ true
unfolding text_eq
text_eq_refl [] = refl
text_eq_refl (x ∷ xs) = ground (arith, text_eq_refl xs)

spec_eq-eq : (a b : ChannelKeySpec) → spec_eq a b ≡ true → a ≡ b
unfolding spec_eq
spec_eq-eq (simple a) (simple b) h = ground arith
spec_eq-eq (simple a) (space_channel t b) h = cc
spec_eq-eq (space_channel s a) (simple b) h = cc
spec_eq-eq (space_channel s a) (space_channel t b) h = ground arith

spec_eq_refl : (a : ChannelKeySpec) → spec_eq a a ≡ true
unfolding spec_eq
spec_eq_refl (simple a) = ground arith
spec_eq_refl (space_channel s a) = ground arith

pub key_eq-eq : (k l : ChannelKey) → key_eq k l ≡ true → k ≡ l
unfolding key_eq
key_eq-eq k l h =
    ground (arith, text_eq-eq k.tuner_path l.tuner_path, spec_eq-eq k.channel l.channel)

pub key_eq_refl : (k : ChannelKey) → key_eq k k ≡ true
unfolding key_eq
key_eq_refl k = ground (arith, text_eq_refl k.tuner_path, spec_eq_refl k.channel)
