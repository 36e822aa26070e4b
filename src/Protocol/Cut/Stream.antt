-- ===== src/Protocol/Cut/Stream.antt =====
-- A stream of frames that a socket hands over in chunks.
use recisdb_proxy_rs.Base.{
  ℕ, ◌+◌, ◌≤◌, ◌<◌, ◌≡◌, ◌⊎◌, refl, sym, ap, ◌∙◌, List, [], ◌∷◌, ◌++◌, append-nil, concat, length,
  length-append, leb, All, arith, Bool-cases, inl, inr,
}
use recisdb_proxy_rs.Protocol.MessageType.{MessageType}
use recisdb_proxy_rs.Protocol.Frame.{max_frame_size}
use recisdb_proxy_rs.Protocol.Roundtrip.Frames.{frame_bytes}
use recisdb_proxy_rs.Protocol.Cut.{waiting, frame, cut}
use recisdb_proxy_rs.Protocol.Cut.Frames.{cut-whole, cut-part, length-frame_bytes}

-- What a read of the socket returns before its end.
abbrev pub IsChunk : List ℕ → Type 0
IsChunk c = 0 < length c

-- The stream's first frame is all in the buffer, or not yet.
pub whole_or_part :
    (t : MessageType) (payload rest buf more : List ℕ)
    → length payload ≤ max_frame_size
    → buf ++ more ≡ frame_bytes t payload ++ rest
    → ((left : List ℕ) × (cut buf ≡ frame t payload left) × (left ++ more ≡ rest))
      ⊎ ((cut buf ≡ waiting) × (length buf < length (frame_bytes t payload)))
whole_or_part t payload rest buf more h e =
    elim (Bool-cases (leb (10 + length payload) (length buf))) [
      | inl whole ↦ inl (cut-whole buf more t payload rest h e (ground arith))
      | inr part ↦
          let short : length buf < 10 + length payload = ground arith in
          inr (
            cut-part buf more t payload rest h e short,
            omega (arith, short, length-frame_bytes t payload),
          )
    ]

-- The stream cannot end inside a frame.
pub not_all :
    (t : MessageType) (payload rest buf : List ℕ)
    → buf ++ [] ≡ frame_bytes t payload ++ rest
    → length buf < length (frame_bytes t payload)
    → ⊥
not_all t payload rest buf e h =
    omega (arith, ap length (sym (append-nil buf) ∙ e), length-append (frame_bytes t payload) rest)

pub nothing_left :
    (buf : List ℕ) (chunks : List (List ℕ))
    → All IsChunk chunks
    → buf ++ concat chunks ≡ []
    → (buf ≡ []) × (chunks ≡ [])
nothing_left [] [] k e = (refl, refl)
nothing_left [] ([] ∷ chunks) k e = absurd (omega (arith, k.0))
nothing_left [] ((x ∷ xs) ∷ chunks) k e = absurd (omega (arith, ap length e))
nothing_left (x ∷ xs) chunks k e = absurd (omega (arith, ap length e))
