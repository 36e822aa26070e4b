-- ===== src/Protocol/TypeCodes.antt =====
-- The codes of message types are exactly those that `MessageType::try_from` reads back.
use recisdb_proxy_rs.Base.{ℕ, ◌<◌, ◌≡◌, refl, ◌↔◌, some, arith}
use recisdb_proxy_rs.Protocol.MessageType.{MessageType, hello, to_u16, try_from}

pub try_from-to_u16 : (t : MessageType) → try_from (to_u16 t) ≡ some t
unfolding try_from to_u16
try_from-to_u16 hello = refl
try_from-to_u16 _ = refl

pub to_u16-lt : (t : MessageType) → to_u16 t < 65536
unfolding to_u16
to_u16-lt hello = omega arith
to_u16-lt _ = omega arith

to_u16_of_try_from : (v : ℕ) (t : MessageType) → try_from v ≡ some t → to_u16 t ≡ v
unfolding try_from to_u16
to_u16_of_try_from v t h = ground arith

-- A code is read as a message type exactly when it is that type's code: the two tables of the
-- source agree, no two types share a code, and every other code is refused.
pub try_from-iff-to_u16 : (v : ℕ) (t : MessageType) → (try_from v ≡ some t) ↔ (to_u16 t ≡ v)
try_from-iff-to_u16 v t = (to_u16_of_try_from v t, λ e. rw (← e) (try_from-to_u16 t))
