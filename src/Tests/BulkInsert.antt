-- ===== src/Tests/BulkInsert.antt =====
-- Packets that come in over a socket, in an encoding with one byte each for type and length.
use difs.Prelude.{
  Text, codes, ℕ, ◌+◌, ◌≤◌, ◌<◌, ◌≡◌, refl, leb, List, [], ◌∷◌, ◌++◌, Option, none, some, length,
  take, drop, length-append, arith, if◌then◌else◌,
}
use difs.Storage.{Storage}
use difs.Storage.Mongo.{Db, mongo_storage}
use difs.BulkInsert.{
  Found, Decoded, decoded, runtime_error, Blocks, receive, start_receive, receive_all,
  insert_element, max_ndn_packet_size, bytes, handle_receive,
}
use difs.BulkInsert.Stream.{Piece, IsPiece, stream, insert_all, receive_all-stream}
use difs.BulkInsert.Room.{HasRoom, started, received, Reached-HasRoom}
use difs.Examples.Libraries.{Packet, packets, libs, memory_driver}

abbrev element_at : Text → Option Found
element_at [] = none
element_at (type ∷ []) = none
element_at (type ∷ size ∷ t) =
    if leb size (length t) then some (record { type = type; size = size + 2 }) else none

element_at-bounds :
    (t : Text) (f : Found) → element_at t ≡ some f → (0 < f.size) × (f.size ≤ length t)
element_at-bounds [] f e = absurd (cc)
element_at-bounds (type ∷ []) f e = absurd (cc)
element_at-bounds (type ∷ size ∷ t) f e = ground arith

element_at-append : (t u : Text) (f : Found) → element_at t ≡ some f → element_at (t ++ u) ≡ some f
element_at-append [] u f e = cc
element_at-append (type ∷ []) u f e = cc
element_at-append (type ∷ size ∷ t) u f e = ground (arith, length-append t u)

abbrev decode_packet : Text → Decoded Packet
decode_packet w = elim (packets.read_json (drop 2 w)) as (λ _. Decoded Packet) [
  | none ↦ runtime_error
  | some p ↦ decoded p
]

abbrev blocks : Blocks libs
blocks = record {
  from_buffer = element_at;
  decode = decode_packet;
  from_buffer-bounds = element_at-bounds;
  from_buffer-append = element_at-append;
}

abbrev store : Storage libs
store = mongo_storage libs memory_driver

abbrev no_db : Db libs memory_driver
no_db = record { data_coll = λ k. none; manifest_coll = λ k. none }

-- An element of a type with a content.
abbrev piece : ℕ → Text → Piece libs store blocks
piece type content = record { type = type; wire = type ∷ length content ∷ content }

piece-found :
    (type : ℕ) (content u : Text)
    → element_at ((piece type content).wire ++ u)
      ≡ some (record { type = type; size = length (piece type content).wire })
piece-found type content u = ground (arith, length-append content u)

abbrev sample : Packet
sample = (codes "/a/b", codes "hello")

-- A packet, an interest, and a packet that does not decode.
abbrev pieces : List (Piece libs store blocks)
pieces = piece 6 (packets.write_json sample) ∷ piece 5 (codes "/c") ∷ piece 6 (1 ∷ []) ∷ []

sample-IsPiece : IsPiece libs store blocks (piece 6 (packets.write_json sample))
unfolding insert_element
sample-IsPiece = record {
  found = piece-found 6 (packets.write_json sample);
  fits = omega arith;
  caught = λ s. refl;
}

interest-IsPiece : IsPiece libs store blocks (piece 5 (codes "/c"))
unfolding insert_element
interest-IsPiece = record {
  found = piece-found 5 (codes "/c");
  fits = omega arith;
  caught = λ s. refl;
}

broken-IsPiece : IsPiece libs store blocks (piece 6 (1 ∷ []))
unfolding insert_element
broken-IsPiece = record { found = piece-found 6 (1 ∷ []); fits = omega arith; caught = λ s. refl }

-- The whole stream, cut after three bytes and before the last one.
abbrev parts : List Text
parts =
    take 3 (stream libs store blocks pieces)
    ∷ take 17 (drop 3 (stream libs store blocks pieces))
    ∷ drop 20 (stream libs store blocks pieces)
    ∷ []

receive_all-stream_example :
    receive_all libs store blocks parts (start_receive libs store blocks no_db) ≡ (
      record {
        buffer = [];
        store = insert_all libs store blocks pieces (record { state = no_db; signals = [] });
      },
      receive max_ndn_packet_size,
    )
receive_all-stream_example =
    receive_all-stream libs store blocks pieces parts no_db
      (sample-IsPiece, (interest-IsPiece, (broken-IsPiece, tt))) refl

Reached-HasRoom_example : HasRoom libs store blocks (
    handle_receive libs store blocks
      (bytes (6 ∷ 9 ∷ 1 ∷ []))
      (start_receive libs store blocks no_db).0)
unfolding start_receive
Reached-HasRoom_example =
    Reached-HasRoom libs store blocks {s = no_db}
      (received (bytes (6 ∷ 9 ∷ 1 ∷ [])) (omega arith) started)
