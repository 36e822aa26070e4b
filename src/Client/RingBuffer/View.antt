-- ===== src/Client/RingBuffer/View.antt =====
-- The ring buffer seen as a queue of bytes.
use recisdb_proxy_rs.Base.{ℕ, ◌-◌, ◌<◌, List, ltb, if◌then◌else◌}
use recisdb_proxy_rs.Client.RingBuffer.{TsRingBuffer, available, free_space, round_up}
use recisdb_proxy_rs.Client.RingBuffer.Cells.{cells}

-- The bytes that wait to be read, oldest first.
abbrev pub contents : ℕ → TsRingBuffer → List ℕ
contents size b = cells size b.bytes b.read_pos (available size b)

pub record IsRing (size : ℕ) (b : TsRingBuffer) : Type 0 where
  pub write_in : b.write_pos < size
  pub read_in : b.read_pos < size

-- How many of the oldest bytes a write of `n` bytes discards.
abbrev pub discarded : ℕ → TsRingBuffer → ℕ → ℕ
discarded size b n = if ltb (free_space size b) n then round_up (n - free_space size b) else 0
