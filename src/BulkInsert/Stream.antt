-- ===== src/BulkInsert/Stream.antt =====
-- A stream of packets that comes in parts: where it is cut makes no difference.
use difs.Prelude.{
  Text, ℕ, zero, suc, ◌-◌, ◌≤◌, ◌<◌, ◌≡◌, refl, sym, ap, ◌∙◌, true, false, List, [], ◌∷◌, ◌++◌,
  none, some, length, take, drop, All, length-append, length-drop, take-append-drop, inl, inr,
  Option-cases, arith,
}
use mathlib.Core.List.{append-nil, append_assoc}
use native.Mathlib.Decide.{dec_lt}
use difs.Storage.{Libs, Storage}
use difs.BulkInsert.{
  Found, Blocks, Store, Loop, BulkClient, receive, max_ndn_packet_size, insert_element, consume,
  after_loop, handle_receive, start_receive, receive_all, bytes,
}

-- Two ways to cut a text.
take-longer : (t u w v : Text) → t ++ u ≡ w ++ v → length w ≤ length t → take (length w) t ≡ w
take-longer t u [] v e h = refl
take-longer [] u (x ∷ w) v e h = absurd (omega arith)
take-longer (c ∷ t) u (x ∷ w) v e h =
    let first : c ≡ x = cc in
    let rest : t ++ u ≡ w ++ v = cc in rw (first, take-longer t u w v rest (omega arith)) refl

drop-longer : (t u w v : Text) → t ++ u ≡ w ++ v → length w ≤ length t → drop (length w) t ++ u ≡ v
drop-longer t u [] v e h = e
drop-longer [] u (x ∷ w) v e h = absurd (omega arith)
drop-longer (c ∷ t) u (x ∷ w) v e h = drop-longer t u w v (cc) (omega arith)

abbrev pub join : List Text → Text
join [] = []
join (t ∷ ts) = t ++ join ts

module _ (L : Libs) (S : Storage L) (B : Blocks L) where
  -- An element of the stream: its type and its bytes.
  pub record Piece : Type 0 where
    pub type : ℕ
    pub wire : Text

  -- It is read as such whatever follows, it fits the buffer, and no exception leaves the handler.
  pub record IsPiece (p : Piece) : Type 0 where
    pub found :
        (u : Text)
        → B.from_buffer (p.wire ++ u) ≡ some (record { type = p.type; size = length p.wire })
    pub fits : length p.wire ≤ max_ndn_packet_size
    pub caught : (s : Store L S B) → (insert_element L S B p.type p.wire s).0 ≡ false

  abbrev pub stream : List Piece → Text
  stream [] = []
  stream (p ∷ ps) = p.wire ++ stream ps

  -- What the stream means: its elements, inserted in order.
  unfoldable pub insert_all : List Piece → Store L S B → Store L S B
  insert_all [] s = s
  insert_all (p ∷ ps) s = insert_all ps (insert_element L S B p.type p.wire s).1

  -- What the loop leaves of a part of the stream: the beginning of the next element at most.
  record Leaves (u : Text) (ps : List Piece) (s : Store L S B) (l : Loop L S B) : Type 0 where
    left : List Piece
    pieces : All IsPiece left
    next : l.rest ++ u ≡ stream left
    same : insert_all ps s ≡ insert_all left l.store
    quiet : l.threw ≡ false
    short : length l.rest < max_ndn_packet_size
    done : u ≡ [] → left ≡ []

  wire-pos : (p : Piece) → IsPiece p → 0 < length p.wire
  wire-pos p h = (B.from_buffer-bounds (p.wire ++ []) _ (h.found [])).0

  stream-nil : (ps : List Piece) → All IsPiece ps → stream ps ≡ [] → ps ≡ []
  stream-nil [] all e = refl
  stream-nil (p ∷ ps) all e =
      absurd (omega (arith, wire-pos p all.0, length-append p.wire (stream ps), ap length e))

  -- A part of the stream that holds all of the next element.
  from_buffer-whole :
      (t u : Text) (p : Piece) (v : Text)
      → IsPiece p
      → t ++ u ≡ p.wire ++ v
      → length p.wire ≤ length t
      → B.from_buffer t ≡ some (record { type = p.type; size = length p.wire })
  from_buffer-whole t u p v h e k =
      let split : t ≡ p.wire ++ drop (length p.wire) t =
        sym (take-append-drop (length p.wire) t)
        ∙ ap (λ w. w ++ drop (length p.wire) t) (take-longer t u p.wire v e k) in
      ap B.from_buffer split ∙ h.found (drop (length p.wire) t)

  -- One that does not.
  from_buffer-part :
      (t u : Text) (p : Piece) (v : Text)
      → IsPiece p
      → t ++ u ≡ p.wire ++ v
      → length t < length p.wire
      → B.from_buffer t ≡ none
  from_buffer-part t u p v h e k = elim (Option-cases (B.from_buffer t)) [
    | inl nothing ↦ nothing
    | inr (f, some_f) ↦
        let same : f.size ≡ length p.wire =
          cc (B.from_buffer-append t u f some_f, ap B.from_buffer e, h.found v) in
        absurd (omega (arith, same, (B.from_buffer-bounds t f some_f).1))
  ]

  consume-found :
      (fuel c : ℕ) (t : Text) (f : Found) (s : Store L S B)
      → B.from_buffer (c ∷ t) ≡ some f
      → (insert_element L S B f.type (take f.size (c ∷ t)) s).0 ≡ false
      → consume L S B (suc fuel) (c ∷ t) s
        ≡ consume L S B fuel
            (drop f.size (c ∷ t))
            (insert_element L S B f.type (take f.size (c ∷ t)) s).1
  unfolding consume
  consume-found fuel c t f s e k = rw (consume, e, k) refl

  consume-whole :
      (fuel c : ℕ) (t u : Text) (p : Piece) (v : Text) (s : Store L S B)
      → IsPiece p
      → (c ∷ t) ++ u ≡ p.wire ++ v
      → length p.wire ≤ suc (length t)
      → consume L S B (suc fuel) (c ∷ t) s
        ≡ consume L S B fuel (drop (length p.wire) (c ∷ t)) (insert_element L S B p.type p.wire s).1
  consume-whole fuel c t u p v s h e k =
      let front = take-longer (c ∷ t) u p.wire v e k in
      consume-found fuel c t (record { type = p.type; size = length p.wire }) s
        (from_buffer-whole (c ∷ t) u p v h e k)
        (ap (λ w. (insert_element L S B p.type w s).0) front ∙ h.caught s)
      ∙ ap
          (λ w.
            consume L S B fuel (drop (length p.wire) (c ∷ t)) (insert_element L S B p.type w s).1)
          front

  -- Nothing is left to read.
  ends-Leaves :
      (u : Text) (ps : List Piece) (s : Store L S B)
      → All IsPiece ps
      → u ≡ stream ps
      → Leaves u ps s (record { rest = []; is_ok = true; threw = false; store = s })
  ends-Leaves u ps s all e = record {
    left = ps;
    pieces = all;
    next = e;
    same = refl;
    quiet = refl;
    short = omega arith;
    done = λ k. stream-nil ps all (sym e ∙ k);
  }

  consume-Leaves :
      (fuel : ℕ) (t u : Text) (ps : List Piece) (s : Store L S B)
      → length t ≤ fuel
      → All IsPiece ps
      → t ++ u ≡ stream ps
      → Leaves u ps s (consume L S B fuel t s)
  unfolding consume insert_all
  consume-Leaves zero [] u ps s h all e = ends-Leaves u ps s all e
  consume-Leaves (suc fuel) [] u ps s h all e = ends-Leaves u ps s all e
  consume-Leaves (suc fuel) (c ∷ t) u [] s h all e = cc
  consume-Leaves (suc fuel) (c ∷ t) u (p ∷ ps) s h all e =
      elim (dec_lt (suc (length t)) (length p.wire)) [
        | yes k ↦
            rw (consume, from_buffer-part (c ∷ t) u p (stream ps) all.0 e k)
              (record {
                left = p ∷ ps;
                pieces = all;
                next = e;
                same = refl;
                quiet = refl;
                short = omega (arith, (all.0).fits);
                done = λ (nothing : u ≡ []). absurd (
                    omega (
                      arith,
                      ap length e,
                      length-append (c ∷ t) u,
                      length-append p.wire (stream ps),
                      ap length nothing,
                    ));
              })
        | no k ↦
            let ih =
              consume-Leaves fuel (drop (length p.wire) (c ∷ t)) u ps
                (insert_element L S B p.type p.wire s).1
                (omega (arith, length-drop (length p.wire) (c ∷ t), wire-pos p all.0)) all.1
                (drop-longer (c ∷ t) u p.wire (stream ps) e (omega arith)) in
            rw (consume-whole fuel c t u p (stream ps) s all.0 e (omega arith)) (record {
              left = ih.left;
              pieces = ih.pieces;
              next = ih.next;
              same = ih.same;
              quiet = ih.quiet;
              short = ih.short;
              done = ih.done;
            })
      ]
  consume-Leaves zero (c ∷ t) u ps s h all e = absurd (omega arith)

  -- The handler goes on with what the loop leaves, since that is not a full buffer.
  handle_receive-Leaves :
      (t u : Text) (ps : List Piece) (c : BulkClient L S B)
      → Leaves u ps c.store (consume L S B (length (c.buffer ++ t)) (c.buffer ++ t) c.store)
      → let l = consume L S B (length (c.buffer ++ t)) (c.buffer ++ t) c.store in
        handle_receive L S B (bytes t) c ≡ (
          record { buffer = l.rest; store = l.store },
          receive (max_ndn_packet_size - length l.rest),
        )
  unfolding handle_receive after_loop
  handle_receive-Leaves t u ps c h = ground (arith, h.quiet, h.short)

  receive_all-from :
      (ts : List Text) (ps : List Piece) (c : BulkClient L S B)
      → All IsPiece ps
      → c.buffer ++ join ts ≡ stream ps
      → (join ts ≡ [] → ps ≡ [])
      → receive_all L S B ts (c, receive (max_ndn_packet_size - length c.buffer))
        ≡ (record { buffer = []; store = insert_all ps c.store }, receive max_ndn_packet_size)
  unfolding receive_all insert_all
  receive_all-from [] ps c all e k =
      let empty : c.buffer ≡ [] = sym (append-nil c.buffer) ∙ e ∙ ap stream (k refl) in
      rw (k refl) (
        ap
          (λ (b : Text).
            (record { buffer = b; store = c.store }, receive (max_ndn_packet_size - length b)))
          empty
        ∙ refl)
  receive_all-from (t ∷ ts) ps c all e k =
      let h =
        consume-Leaves (length (c.buffer ++ t)) (c.buffer ++ t) (join ts) ps c.store (omega arith)
          all (append_assoc c.buffer t (join ts) ∙ e) in
      ap (receive_all L S B ts) (handle_receive-Leaves t (join ts) ps c h)
      ∙ receive_all-from ts h.left (record { buffer = _; store = _ }) h.pieces h.next h.done
      ∙ ap (λ s. (record { buffer = []; store = s }, receive max_ndn_packet_size)) (sym h.same)

  -- A stream of elements that each fit the buffer, and whose packets decode or fail with a
  -- `runtime_error`, arrives in parts that are cut anywhere: the connection stays open, with an
  -- empty buffer, and the storage and the signals are as after the insertion of the elements one
  -- by one, in order.
  pub receive_all-stream :
      (ps : List Piece) (ts : List Text) (s : S.State)
      → All IsPiece ps
      → join ts ≡ stream ps
      → receive_all L S B ts (start_receive L S B s) ≡ (
        record { buffer = []; store = insert_all ps (record { state = s; signals = [] }) },
        receive max_ndn_packet_size,
      )
  unfolding start_receive
  receive_all-stream ps ts s all e =
      receive_all-from ts ps _ all e (λ k. stream-nil ps all (sym e ∙ k))
