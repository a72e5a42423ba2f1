-- ===== src/Client/Served.antt =====
-- The packets that `onPutFileInterest` serves: every one that the manifest of the file promises.
use difs.Prelude.{
  Text, ℕ, zero, suc, ◌+◌, ◌/◌, ◌%◌, ◌^◌, ◌≤◌, ◌<◌, ◌≡◌, refl, ap, ◌∙◌, Bool, List, [], ◌∷◌, length,
  some, arith,
}
use difs.Prelude.Int.{pos}
use difs.Client.{
  Segment, packet_at, on_put_file_interest, undefined, packet, put_file_prepare_next_data,
}
use difs.Client.File.{Numbered, put-then_get, put_nothing}

packet_at-Numbered :
    (first n : ℕ) (packets : List Segment)
    → Numbered first packets
    → n < length packets
    → (s : Segment) × (packet_at packets n ≡ some s) × (s.number ≡ pos (first + n))
unfolding packet_at
packet_at-Numbered first n [] numbers h = absurd (omega arith)
packet_at-Numbered first zero (s ∷ ss) numbers h = (s, refl, numbers.0 ∙ ap pos (omega arith))
packet_at-Numbered first (suc n) (s ∷ ss) numbers h =
    let later = packet_at-Numbered (suc first) n ss numbers.1 (omega arith) in
    (later.0, later.1, later.2 ∙ ap pos (omega arith))

answer-found :
    (matches : Segment → Bool) (packets : List Segment) (n : ℕ) (s : Segment)
    → packet_at packets n ≡ some s
    → on_put_file_interest matches packets (some n) ≡ packet s
unfolding on_put_file_interest
answer-found matches packets n s e = rw (on_put_file_interest, e) refl

-- Where the last block of a file is neither empty nor full, and its blocks fit an `int`, an
-- interest for any segment up to the number of whole blocks is answered with the packet of that
-- number.
pub on_put_file_interest-served :
    (matches : Segment → Bool) (file : Text) (size segment_no : ℕ)
    → 0 < size
    → length file / size < 2 ^ 31
    → 0 < length file % size
    → segment_no ≤ length file / size
    → (s : Segment) × (on_put_file_interest matches
          (put_file_prepare_next_data file size)
          (some segment_no)
        ≡ packet s)
      × (s.number ≡ pos segment_no)
on_put_file_interest-served matches file size segment_no positive fits rest h =
    let put = put-then_get file size positive fits rest in
    let found =
      packet_at-Numbered 0 segment_no (put_file_prepare_next_data file size) put.1
        (omega (arith, put.2)) in
    (found.0, answer-found matches _ segment_no found.0 found.1, found.2 ∙ ap pos (omega arith))

-- For a file whose length is a multiple of the size of a block, no packet is prepared at all: the
-- first read is one of no bytes, and ends the loop. An interest for a segment then reads the first
-- element of an empty vector.
pub put-whole_blocks :
    (matches : Segment → Bool) (file : Text) (size segment_no : ℕ)
    → 0 < size
    → length file % size ≡ 0
    → (put_file_prepare_next_data file size ≡ [])
      × (on_put_file_interest matches (put_file_prepare_next_data file size) (some segment_no)
          ≡ undefined)
unfolding on_put_file_interest packet_at
put-whole_blocks matches file size segment_no positive e =
    let nothing = put_nothing file size e in
    (nothing, ap (λ packets. on_put_file_interest matches packets (some segment_no)) nothing)
