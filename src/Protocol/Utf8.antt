-- ===== src/Protocol/Utf8.antt =====
-- UTF-8 validity as `String::from_utf8` of Rust's standard library decides it. A `String` of the
-- program is modelled by its bytes.
use recisdb_proxy_rs.Base.{
  ℕ, ◌≡◌, Bool, true, false, ◌&&◌, Option, none, some, List, [], ◌∷◌, leb, ltb, ◌==◌, if◌then◌else◌,
}

abbrev pub Text : Type 0
Text = List ℕ

abbrev tail_byte : ℕ × ℕ
tail_byte = (0x80, 0xBF)

-- The ranges of the bytes that must follow a first byte.
lead : ℕ → Option (List (ℕ × ℕ))
lead b =
    if ltb b 0x80
    then some []
    else if ltb b 0xC2
    then none
    else if ltb b 0xE0
    then some (tail_byte ∷ [])
    else if b == 0xE0
    then some ((0xA0, 0xBF) ∷ tail_byte ∷ [])
    else if b == 0xED
    then some ((0x80, 0x9F) ∷ tail_byte ∷ [])
    else if ltb b 0xF0
    then some (tail_byte ∷ tail_byte ∷ [])
    else if b == 0xF0
    then some ((0x90, 0xBF) ∷ tail_byte ∷ tail_byte ∷ [])
    else if ltb b 0xF4
    then some (tail_byte ∷ tail_byte ∷ tail_byte ∷ [])
    else if b == 0xF4
    then some ((0x80, 0x8F) ∷ tail_byte ∷ tail_byte ∷ [])
    else none

valid_from : List (ℕ × ℕ) → List ℕ → Bool
valid_from [] [] = true
valid_from (r ∷ rs) [] = false
valid_from [] (b ∷ bs) = elim (lead b) [ none ↦ false | some rs ↦ valid_from rs bs ]
valid_from ((lo, hi) ∷ rs) (b ∷ bs) = leb lo b && leb b hi && valid_from rs bs

unfoldable pub is_utf8 : List ℕ → Bool
unfolding lead valid_from
is_utf8 bs = valid_from [] bs

abbrev pub IsUtf8 : Text → Type 0
IsUtf8 s = is_utf8 s ≡ true
