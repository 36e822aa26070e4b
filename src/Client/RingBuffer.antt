-- ===== src/Client/RingBuffer.antt =====
-- bondriver-proxy-client/src/client/buffer.rs: the ring buffer between the network and the player. The
-- boxed slice is a function from indices, and its size an argument: RING_BUFFER_SIZE in the program.
pub mod Cells
pub mod View
pub mod Write
pub mod Read
pub mod Race
mod Tests
use recisdb_proxy_rs.Base.{
  ℕ, suc, zero, ◌+◌, ◌-◌, ◌*◌, ◌/◌, ◌%◌, min, Bool, List, [], ◌∷◌, ◌++◌, length, take, drop, ltb,
  leb, ◌==◌, if◌then◌else◌,
}

abbrev pub ts_packet_size : ℕ
ts_packet_size = 188

abbrev pub ring_buffer_size : ℕ
ring_buffer_size = ts_packet_size * 1024 * 100

pub record TsRingBuffer : Type 0 where
  pub bytes : ℕ → ℕ
  pub write_pos : ℕ
  pub read_pos : ℕ

unfoldable pub update : (ℕ → ℕ) → ℕ → ℕ → ℕ → ℕ
update mem i v j = if i == j then v else mem j

-- `copy_nonoverlapping` to the bytes from `pos` on.
unfoldable pub copy : (ℕ → ℕ) → ℕ → List ℕ → ℕ → ℕ
copy mem pos [] = mem
copy mem pos (b ∷ bs) = copy (update mem pos b) (pos + 1) bs

-- `buffer[pos..pos + n]`.
unfoldable pub slice : (ℕ → ℕ) → ℕ → ℕ → List ℕ
slice mem pos zero = []
slice mem pos (suc n) = mem pos ∷ slice mem (pos + 1) n

unfoldable pub new : TsRingBuffer
new = record { bytes = λ i. 0; write_pos = 0; read_pos = 0 }

-- The read position moves by whole packets.
unfoldable pub round_up : ℕ → ℕ
round_up n = (n + ts_packet_size - 1) / ts_packet_size * ts_packet_size

unfoldable pub clear : TsRingBuffer → TsRingBuffer
clear b = record b { write_pos = 0; read_pos = 0 }

module _ (size : ℕ) where
  -- The bytes between two positions.
  unfoldable pub distance : ℕ → ℕ → ℕ
  distance read write = if leb read write then write - read else size - read + write

  unfoldable pub available : TsRingBuffer → ℕ
  unfolding distance
  available b = distance b.read_pos b.write_pos

  unfoldable pub free_space : TsRingBuffer → ℕ
  free_space b = size - available b - 1

  unfoldable pub is_empty : TsRingBuffer → Bool
  is_empty b = available b == 0

  -- The free space, as `write` computes it.
  unfoldable pub write_free : ℕ → ℕ → ℕ
  write_free write read = if leb read write then size - write + read - 1 else read - write - 1

  -- Where the read position goes when `to_write` bytes come and `free` fit.
  unfoldable pub write_read_pos : ℕ → ℕ → ℕ → ℕ
  write_read_pos read free to_write =
      if ltb free to_write then (read + round_up (to_write - free)) % size else read

  -- The two copies, up to the end of the buffer and on from its start.
  unfoldable pub write_bytes : (ℕ → ℕ) → ℕ → ℕ → List ℕ → ℕ → ℕ
  write_bytes mem write to_write bytes =
      let first_chunk = min to_write (size - write) in
      let once = copy mem write (take first_chunk bytes) in
      if ltb first_chunk to_write
      then copy once 0 (take (to_write - first_chunk) (drop first_chunk bytes))
      else once

  unfoldable pub write : List ℕ → TsRingBuffer → TsRingBuffer × ℕ
  write bytes b =
      let to_write = min (length bytes) (size - 1) in
      let free = write_free b.write_pos b.read_pos in
      if to_write == 0 then (b, 0) else (
        record {
          bytes = write_bytes b.bytes b.write_pos to_write bytes;
          write_pos = (b.write_pos + to_write) % size;
          read_pos = write_read_pos b.read_pos free to_write;
        },
        to_write,
      )

  -- The two copies of `read_into`.
  unfoldable pub read_bytes : (ℕ → ℕ) → ℕ → ℕ → List ℕ
  read_bytes mem read to_read =
      let first_chunk = min to_read (size - read) in
      let once = slice mem read first_chunk in
      if ltb first_chunk to_read then once ++ slice mem 0 (to_read - first_chunk) else once

  -- The bytes read, how many they are, and how many remain; `room` is the length of `dest`.
  unfoldable pub read_into : ℕ → TsRingBuffer → List ℕ × ℕ × ℕ
  read_into room b =
      let total = distance b.read_pos b.write_pos in
      let to_read = min room total in
      if to_read == 0
      then ([], 0, total)
      else (read_bytes b.bytes b.read_pos to_read, to_read, total - to_read)

  -- The store of `consume`, after its load of the read position.
  unfoldable pub consume_store : ℕ → ℕ → TsRingBuffer → TsRingBuffer
  consume_store loaded count b = record b { read_pos = (loaded + count) % size }

  unfoldable pub consume : ℕ → TsRingBuffer → TsRingBuffer
  unfolding consume_store
  consume count b = consume_store b.read_pos count b
