-- ===== src/Protocol/Reader.antt =====
-- Reading a payload: a step takes the bytes that remain and returns a value with what remains then,
-- an error, or a panic: of a `get` on too few bytes, or of a
-- vector that is too large.
use recisdb_proxy_rs.Base.{
  ℕ, Option, none, some, List, length, ltb, if◌then◌else◌, ok, err, panicked, and_then,
}
use recisdb_proxy_rs.Protocol.Error.{ProtocolError, incomplete_frame, Result}

abbrev pub Reader {ℓ} : Type ℓ → Type ℓ
Reader A = List ℕ → Result (A × List ℕ)

infixl 5 ◌>>=◌
unfoldable pub ◌>>=◌ {ℓ κ} : {A : Type ℓ} {B : Type κ} → Reader A → (A → Reader B) → Reader B
◌>>=◌ p f buf = and_then (p buf) (λ r. f r.0 r.1)

-- `if buf.remaining() < n { return Err(IncompleteFrame { .. }) }`, before `p`.
unfoldable pub need {ℓ} : {A : Type ℓ} → ℕ → Reader A → Reader A
need n p buf = if ltb (length buf) n then err (incomplete_frame n (length buf)) else p buf

-- `Vec::with_capacity(count)`, before `p`.
unfoldable pub reserving {ℓ} : {A : Type ℓ} → ℕ → ℕ → Reader A → Reader A
reserving capacity count p buf = if ltb capacity count then panicked else p buf

unfoldable pub pure {ℓ} : {A : Type ℓ} → A → Reader A
pure a buf = ok (a, buf)

unfoldable pub fail {ℓ} : {A : Type ℓ} → ProtocolError → Reader A
fail e buf = err e

of_get {ℓ} : {A : Type ℓ} → Option (A × List ℕ) → Result (A × List ℕ)
of_get none = panicked
of_get (some r) = ok r

-- A `get` of the buffer.
unfoldable pub get {ℓ} : {A : Type ℓ} → (List ℕ → Option (A × List ℕ)) → Reader A
unfolding of_get
get g buf = of_get (g buf)

-- What a whole decoder returns: the rest of the payload is dropped.
abbrev pub result {ℓ} : {A : Type ℓ} → Result (A × List ℕ) → Result A
result r = and_then r (λ x. ok x.0)
