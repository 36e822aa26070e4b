-- ===== src/Ts/Minimal/Aligned.antt =====
-- The loops of `feed` against the packets of the stream.
use recisdb_proxy_rs.Base.{
  ℕ, zero, suc, ◌+◌, ◌≤◌, ◌≡◌, refl, ap, ◌∙◌, subst, true, false, List, [], ◌∷◌, ◌++◌, length,
  length-append, drop, take-append, drop-append, concat, All, ltb, ◌==◌, arith, ok, err, panicked,
  ◌-◌, ◌&&◌, leb,
}
use recisdb_proxy_rs.Ts.Access.{Parse, ◌>>=◌, index, sub_slice}
use recisdb_proxy_rs.Ts.Minimal.Tables.{Text}
use recisdb_proxy_rs.Ts.Minimal.{
  MinimalTsParser, process_packet, find_sync, feed_packets, is_complete, feed,
}

abbrev pub IsPacket : List ℕ → Type 0
IsPacket packet = (length packet ≡ 188) × (index packet 0 ≡ ok 0x47)

-- One packet behind the other.
abbrev pub process_all : Text → List (List ℕ) → MinimalTsParser → Parse MinimalTsParser
process_all t [] p = ok p
process_all t (packet ∷ packets) p = process_packet t packet p >>= process_all t packets

pub bind-same :
    {A B : Type 0} (m : Parse A) (f g : A → Parse B) → ((a : A) → f a ≡ g a) → (m >>= f) ≡ (m >>= g)
bind-same (ok a) f g h = h a
bind-same (err e) f g h = refl
bind-same panicked f g h = refl

-- A packet in front is found.
find_sync-packets :
    (n : ℕ) (packets : List (List ℕ))
    → All IsPacket packets
    → find_sync n (concat packets) ≡ ok (concat packets)
unfolding find_sync
find_sync-packets zero packets h = refl
find_sync-packets (suc n) [] h = refl
find_sync-packets (suc n) ([] ∷ packets) h = absurd (omega (arith, h.0.0))
find_sync-packets (suc n) ((b ∷ bs) ∷ packets) h =
    let same : b ≡ 0x47 = ground (arith, h.0.1) in
    let found : (b == 0x47) ≡ true = ground (arith, same) in
    let some_bytes : (length ((b ∷ bs) ++ concat packets) == 0) ≡ false = ground arith in
    rw (some_bytes, found) refl

find_sync-skipped :
    (m n : ℕ) (skipped bytes : List ℕ)
    → m ≡ length skipped + n
    → All (λ b. (b == 0x47) ≡ false) skipped
    → find_sync m (skipped ++ bytes) ≡ find_sync n bytes
unfolding find_sync
find_sync-skipped m n [] bytes e h = ap (λ k. find_sync k bytes) (omega (arith, e))
find_sync-skipped zero n (b ∷ skipped) bytes e h = absurd (omega (arith, e))
find_sync-skipped (suc m) n (b ∷ skipped) bytes e h =
    let some_bytes : (length ((b ∷ skipped) ++ bytes) == 0) ≡ false = ground arith in
    rw (some_bytes, h.0) (find_sync-skipped m n skipped bytes (omega (arith, e)) h.1)

index-front : (xs ys : List ℕ) (b : ℕ) → index xs 0 ≡ ok b → index (xs ++ ys) 0 ≡ ok b
index-front [] ys b h = cc
index-front (x ∷ xs) ys b h = h

sub_slice-front : (xs ys : List ℕ) → sub_slice (xs ++ ys) 0 (length xs) ≡ ok xs
sub_slice-front xs ys =
    let n = length xs in
    let inside : (leb 0 n && leb n (length (xs ++ ys))) ≡ true =
      ground (arith, length-append xs ys) in
    let whole : n - 0 ≡ n = omega arith in rw (inside, whole) (ap ok (take-append xs ys))

feed_packets-loop :
    (t : Text) (n : ℕ) (packets : List (List ℕ)) (p : MinimalTsParser)
    → All IsPacket packets
    → length (concat packets) ≤ n
    → feed_packets t n (concat packets) p ≡ process_all t packets p
unfolding feed_packets
feed_packets-loop t zero [] p h k = refl
feed_packets-loop t (suc n) [] p h k = refl
feed_packets-loop t zero (q ∷ qs) p h k = absurd (omega (arith, length-append q (concat qs), h.0.0))
feed_packets-loop t (suc n) (q ∷ qs) p h k =
    let rest = concat qs in
    let enough : ltb (length (q ++ rest)) 188 ≡ false =
      ground (arith, length-append q rest, h.0.0) in
    let front : sub_slice (q ++ rest) 0 188 ≡ ok q =
      subst (λ m. sub_slice (q ++ rest) 0 m ≡ ok q) h.0.0 (sub_slice-front q rest) in
    let back : drop 188 (q ++ rest) ≡ rest =
      subst (λ m. drop m (q ++ rest) ≡ rest) h.0.0 (drop-append q rest) in
    rw (enough, index-front q rest 0x47 h.0.1, front, back)
      (bind-same (process_packet t q p) _ _
        λ p'. feed_packets-loop t n qs p' h.1 (omega (arith, length-append q rest, h.0.0, k)))

-- Bytes without a sync byte, then whole packets, are fed at once: the parser handles exactly these packets,
-- in order, and tells whether it is complete.
pub feed-packets :
    (t : Text) (skipped : List ℕ) (packets : List (List ℕ)) (p : MinimalTsParser)
    → All (λ b. (b == 0x47) ≡ false) skipped
    → All IsPacket packets
    → feed t (skipped ++ concat packets) p
      ≡ (process_all t packets p >>= λ p'. ok (p', is_complete p'))
unfolding feed
feed-packets t skipped packets p h k =
    let bytes = concat packets in
    let n = length bytes in
    let found : find_sync (length (skipped ++ bytes)) (skipped ++ bytes) ≡ ok bytes =
      find_sync-skipped _ n skipped bytes (length-append skipped bytes) h
      ∙ find_sync-packets n packets k in
    rw found (
      rw
        (feed_packets-loop t (length (skipped ++ bytes)) packets p k
          (omega (arith, length-append skipped bytes)))
        refl)
