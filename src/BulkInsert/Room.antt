-- ===== src/BulkInsert/Room.antt =====
-- The room that a receive has, whatever comes.
use difs.Prelude.{
  Text, ℕ, zero, suc, ◌+◌, ◌≤◌, ◌<◌, ◌≡◌, true, Bool-cases, [], ◌∷◌, ◌++◌, length, take, drop,
  Option-cases, inl, inr, length-append, length-drop, arith,
}
use difs.Storage.{Libs, Storage}
use difs.BulkInsert.{
  Blocks, Store, Loop, BulkClient, Event, Next, receive, close, finish, throw, max_ndn_packet_size,
  insert_element, consume, after_loop, handle_receive, start_receive, bytes, cancelled, failed,
}

module _ (L : Libs) (S : Storage L) (B : Blocks L) where
  -- A receive that follows has a place for at least one byte, behind those that are kept.
  abbrev pub HasRoom : BulkClient L S B × Next → Type 0
  HasRoom (c, receive room) = (length c.buffer + room ≡ max_ndn_packet_size) × (0 < room)
  HasRoom (c, close) = Unit
  HasRoom (c, finish) = Unit
  HasRoom (c, throw) = Unit

  -- What the loop leaves is shorter than what it got, but for a first element that is not whole.
  record Shrinks (t : Text) (l : Loop L S B) : Type 0 where
    shorter : length l.rest ≤ length t
    strictly : l.is_ok ≡ true → 0 < length t → length l.rest < length t

  consume-Shrinks :
      (fuel : ℕ) (t : Text) (s : Store L S B) → length t ≤ fuel → Shrinks t (consume L S B fuel t s)
  unfolding consume
  consume-Shrinks zero [] s h = omega arith
  consume-Shrinks zero (c ∷ t) s h = absurd (omega arith)
  consume-Shrinks (suc fuel) [] s h = omega arith
  consume-Shrinks (suc fuel) (c ∷ t) s h = elim (Option-cases (B.from_buffer (c ∷ t))) [
    | inl e ↦ rw (consume, e) (record { shorter = omega arith; strictly = cc })
    | inr (f, e) ↦
        let less : length (drop f.size (c ∷ t)) < length (c ∷ t) = omega (
          arith,
          (B.from_buffer-bounds (c ∷ t) f e).0,
          (B.from_buffer-bounds (c ∷ t) f e).1,
          length-drop f.size (c ∷ t),
        ) in
        elim (Bool-cases (insert_element L S B f.type (take f.size (c ∷ t)) s).0) [
          | inl threw ↦
              rw (consume, e, threw)
                (record { shorter = omega arith; strictly = λ _ _. omega arith })
          | inr goes_on ↦
              let ih =
                consume-Shrinks fuel (drop f.size (c ∷ t))
                  (insert_element L S B f.type (take f.size (c ∷ t)) s).1 (omega arith) in
              rw (consume, e, goes_on)
                (record {
                  shorter = omega (arith, ih.shorter);
                  strictly = λ _ _. omega (arith, ih.shorter);
                })
        ]
  ]

  -- The bytes that a receive with this room can call back with.
  abbrev pub FitsRoom : ℕ → Event → Type 0
  FitsRoom room (bytes received) = length received ≤ room
  FitsRoom room cancelled = Unit
  FitsRoom room failed = Unit

  after_loop-HasRoom :
      (t : Text) (l : Loop L S B)
      → length t ≤ max_ndn_packet_size
      → Shrinks t l
      → HasRoom (after_loop L S B t l)
  unfolding after_loop
  after_loop-HasRoom t l h k = ground (arith, k.shorter, k.strictly)

  handle_receive-HasRoom :
      (e : Event) (c : BulkClient L S B) (room : ℕ)
      → HasRoom (c, receive room)
      → FitsRoom room e
      → HasRoom (handle_receive L S B e c)
  unfolding handle_receive
  handle_receive-HasRoom cancelled c room h k = tt
  handle_receive-HasRoom failed c room h k = tt
  handle_receive-HasRoom (bytes received) c room h k =
      let t = c.buffer ++ received in
      after_loop-HasRoom t (consume L S B (length t) t c.store)
        (omega (arith, length-append c.buffer received))
        (consume-Shrinks (length t) t c.store (omega arith))

  -- What the handler can come to, from the start, by events that the receives allow.
  pub data Reached (s : S.State) : BulkClient L S B × Next → Type 0 where
    started : Reached s (start_receive L S B s)
    received :
        {c : BulkClient L S B} {room : ℕ} (e : Event)
        → FitsRoom room e
        → Reached s (c, receive room)
        → Reached s (handle_receive L S B e c)

  -- Whatever bytes arrive, by receives that hand over no more bytes than they have room for: whenever
  -- the handler asks for more, the room that it offers is not empty, and it is what the buffer has
  -- left.
  pub Reached-HasRoom : {s : S.State} {x : BulkClient L S B × Next} → Reached s x → HasRoom x
  unfolding start_receive
  Reached-HasRoom started = omega arith
  Reached-HasRoom (received {c} {room} e fits before) =
      handle_receive-HasRoom e c room (Reached-HasRoom before) fits
