-- ===== src/Client.antt =====
-- lib/difs.cpp: how `DIFS::putFile` cuts a file into packets and serves them, and how `getFile` puts
-- the contents together. The commands that go with these are in Client/Commands and
-- Client/Callbacks. The size of a block is positive and fits an `int`.
pub mod File
pub mod Commands
pub mod Callbacks
pub mod Retry
pub mod Get
pub mod Served
use difs.Prelude.{
  Text, ℕ, zero, suc, ◌+◌, ◌-◌, ◌*◌, ◌/◌, ◌%◌, ltb, Bool, List, [], ◌∷◌, ◌++◌, length, take, drop,
  is_nil, Option, none, some, if◌then◌else◌,
}
use difs.Prelude.Int.{ℤ, pos, pos_part, ◌-ℤ◌, negsuc, to_i32}
use difs.Manifest.{Manifest, make}

-- A packet: its number, its content, and the number of the last one.
pub record Segment : Type 0 where
  pub number : ℤ
  pub content : Text
  pub final_block : ℤ

-- `seekg` and `read`.
abbrev pub read_at : Text → ℕ → ℕ → Text
read_at file position size = take size (drop position file)

-- `m_bytes / m_blockSize`, converted to an `int`.
unfoldable pub chunk_size : Text → ℕ → ℤ
chunk_size file size = to_i32 (length file / size)

unfoldable pub last_data_size : Text → ℕ → ℕ
last_data_size file size = length file % size

-- What a round of the loop reads: the rest at the end first, then the whole blocks backwards.
unfoldable pub read_chunk : Text → ℕ → ℕ → Text
read_chunk file size zero =
    read_at file (length file - last_data_size file size) (last_data_size file size)
read_chunk file size (suc count) =
    read_at file (length file - last_data_size file size - size * suc count) size

-- The loop of `putFilePrepareNextData` from a round on: a read of nothing ends it.
unfoldable pub prepare : Text → ℕ → ℕ → ℕ → List Segment → List Segment
unfolding chunk_size
prepare file size zero count packets = packets
prepare file size (suc left) count packets =
    let rest = prepare file size left (suc count) (
      record {
        number = chunk_size file size -ℤ pos count;
        content = read_chunk file size count;
        final_block = chunk_size file size;
      }
      ∷ packets) in
    if is_nil (read_chunk file size count) then packets else rest

-- The packets in `m_data`; `m_currentSegmentNo` counts them.
unfoldable pub put_file_prepare_next_data : Text → ℕ → List Segment
unfolding prepare
put_file_prepare_next_data file size =
    prepare file size (pos_part (chunk_size file size -ℤ negsuc 0)) 0 []

-- The manifest that `putFileSendManifest` sends.
unfoldable pub file_manifest : Text → Text → ℕ → Manifest
unfolding make to_i32
file_manifest name file size =
    let block_count = length file / size + (if ltb 0 (length file % size) then 1 else 0) in
    make name (pos 0) (to_i32 ((block_count + 18446744073709551615) % 18446744073709551616))

-- `onDataCommandResponse` for the packets in order: what is written to the stream.
unfoldable pub written : List Segment → Text
written [] = []
written (s ∷ ss) = s.content ++ written ss

-- What `onPutFileInterest` does for an interest under the prefix.
pub data Answer : Type 0 where
  packet : Segment → Answer
  nack : Answer
  dropped : Answer
  undefined : Answer

unfoldable pub packet_at : List Segment → ℕ → Option Segment
packet_at [] n = none
packet_at (s ∷ ss) zero = some s
packet_at (s ∷ ss) (suc n) = packet_at ss n

-- The number is `none` for a component that is not a segment; `matches` is
-- `interest.matchesData`. To read `m_data[0]` of an empty vector is undefined.
unfoldable pub on_put_file_interest : (Segment → Bool) → List Segment → Option ℕ → Answer
on_put_file_interest matches packets none = dropped
on_put_file_interest matches packets (some segment_no) =
    elim (packet_at packets segment_no) as (λ _. Answer) [
      | some s ↦ packet s
      | none ↦ elim (packet_at packets 0) as (λ _. Answer) [
        | some s ↦ if matches s then packet s else nack
        | none ↦ undefined
      ]
    ]
