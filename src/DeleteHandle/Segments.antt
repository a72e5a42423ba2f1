-- ===== src/DeleteHandle/Segments.antt =====
-- The segments that a `delete-data` command deletes.
use difs.Prelude.{
  Text, ℕ, zero, suc, ◌+◌, ◌-◌, ◌%◌, ◌^◌, ◌≤◌, ◌<◌, ◌≡◌, refl, ap, ◌∙◌, ltb, leb, Bool, true, false,
  ◌||◌, [], ◌∷◌, none, some, if◌then◌else◌, arith,
}
use difs.Prelude.Int.{int_eq}
use difs.Tlv.{Tlv}
use difs.Command.Parameter.{RepoCommandParameter}
use difs.Storage.{Libs, Storage, missing, same_key, Contract}
use difs.Storage.RepoStorage.{as_bool, delete_data, read_data}
use difs.Storage.RepoStorage.Laws.{delete_data-Valid, delete_data_lem}
use difs.DeleteHandle.Replies.{Success, positive_reply-Success}
use difs.Command.Response.{RepoCommandResponse}
use difs.DeleteHandle.{
  DeleteHandle, done, replied, some_or, positive_reply, delete_segments, handle_delete_data_command,
}

module _ (L : Libs) (S : Storage L) (append_segment : Text → ℕ → Text) where
  -- The store after the segments from `i` on, `count` of them, are deleted.
  unfoldable pub swept : ℕ → Text → ℕ → S.State → S.State
  swept zero name i s = s
  swept (suc count) name i s =
      swept count name (suc i) (delete_data L S (append_segment name i) s).1

  -- Whether one of these segments has the key of `j`.
  unfoldable pub covers : ℕ → Text → ℕ → Text → Bool
  covers zero name i j = false
  covers (suc count) name i j = same_key L (append_segment name i) j || covers count name (suc i) j

  counted : (n : Text) (s : S.State) → as_bool (delete_data L S n s).0 ≡ true
  unfolding as_bool delete_data int_eq
  counted n s = ground arith

  delete_segments-last :
      (T : Tlv) (fuel : ℕ) (name : Text) (i end deleted : ℕ) (s : S.State)
      → end < i
      → delete_segments T L S append_segment (suc fuel) name i end deleted s ≡ some (deleted, s)
  unfolding delete_segments
  delete_segments-last T fuel name i end deleted s h =
      let stop : leb i end ≡ false = ground arith in rw stop refl

  delete_segments-more :
      (T : Tlv) (fuel : ℕ) (name : Text) (i end deleted : ℕ) (s : S.State)
      → i ≤ end
      → delete_segments T L S append_segment (suc fuel) name i end deleted s
        ≡ delete_segments T L S append_segment fuel name
            ((i + 1) % 2 ^ 64)
            end
            ((deleted + 1) % 2 ^ 64)
            (delete_data L S (append_segment name i) s).1
  unfolding delete_segments
  delete_segments-more T fuel name i end deleted s h =
      let goes : leb i end ≡ true = ground arith in
      rw (goes, counted (append_segment name i) s) refl

  delete_segments_lem :
      (T : Tlv) (count fuel : ℕ) (name : Text) (i end deleted : ℕ) (s : S.State)
      → i + count ≡ suc end
      → count < fuel
      → suc end < 2 ^ 64
      → deleted + count < 2 ^ 64
      → delete_segments T L S append_segment fuel name i end deleted s
        ≡ some (deleted + count, swept count name i s)
  unfolding swept
  delete_segments_lem T zero (suc fuel) name i end deleted s e h k l =
      delete_segments-last T fuel name i end deleted s (omega arith)
      ∙ ap (λ d. some (d, s)) (omega arith)
  delete_segments_lem T zero zero name i end deleted s e h k l = absurd (omega arith)
  delete_segments_lem T (suc count) zero name i end deleted s e h k l = absurd (omega arith)
  delete_segments_lem T (suc count) (suc fuel) name i end deleted s e h k l =
      let next : (i + 1) % 2 ^ 64 ≡ suc i = omega arith in
      let number : (deleted + 1) % 2 ^ 64 ≡ deleted + 1 = omega arith in
      let s' = (delete_data L S (append_segment name i) s).1 in
      delete_segments-more T fuel name i end deleted s (omega arith)
      ∙ rw (next, number)
          (delete_segments_lem T count fuel name (suc i) end (deleted + 1) s' (omega arith)
              (omega arith) k (omega arith)
            ∙ ap (λ d. some (d, swept count name (suc i) s')) (omega arith))

  -- A `delete-data` command with the number of a process, for the segments from `start` to `end`,
  -- where `end` is not the last 64-bit number, ends: it deletes each of them, and sends one reply, to
  -- the interest, with the code 200, the number of the process, and all of the segments counted as
  -- deleted, whether they were there or not.
  pub handle_delete_data_command_lem :
      (T : Tlv) (interest : Text) (p : RepoCommandParameter) (q start end : ℕ)
      (h : DeleteHandle T L S)
      → p.process_id ≡ some q
      → p.start_block_id ≡ some start
      → p.end_block_id ≡ some end
      → start ≤ end
      → suc end < 2 ^ 64
      → (r : RepoCommandResponse) × (handle_delete_data_command T L S append_segment
            (suc (suc end - start) + 1)
            interest
            p
            h
          ≡ some (
              done
                (record h { store = swept (suc end - start) (some_or [] p.name) start h.store })
                (replied interest r ∷ [])))
        × Success q (suc end - start) r
  unfolding handle_delete_data_command
  handle_delete_data_command_lem T interest p q start end h f e g k l =
      let ordered : ltb end start ≡ false = ground arith in
      let sweep =
        delete_segments_lem T (suc end - start) (suc (suc end - start) + 1) (some_or [] p.name)
          start end 0 h.store (omega arith) (omega arith) l (omega arith) in
      let all : 0 + (suc end - start) ≡ suc end - start = omega arith in
      (
        positive_reply T p 200 (suc end - start),
        simp (e, g, ordered, sweep, all) refl,
        positive_reply-Success T p q (suc end - start) f,
      )

  delete_segments-endless :
      (T : Tlv) (fuel : ℕ) (name : Text) (i deleted : ℕ) (s : S.State)
      → i < 2 ^ 64
      → delete_segments T L S append_segment fuel name i (2 ^ 64 - 1) deleted s ≡ none
  unfolding delete_segments
  delete_segments-endless T zero name i deleted s h = refl
  delete_segments-endless T (suc fuel) name i deleted s h =
      delete_segments-more T fuel name i (2 ^ 64 - 1) deleted s (omega arith)
      ∙ delete_segments-endless T fuel name ((i + 1) % 2 ^ 64) ((deleted + 1) % 2 ^ 64)
          (delete_data L S (append_segment name i) s).1 (omega arith)

  -- A `delete-data` command up to the last 64-bit number never ends, since the counter wraps round.
  pub handle_delete_data_command-endless :
      (T : Tlv) (fuel : ℕ) (interest : Text) (p : RepoCommandParameter) (start : ℕ)
      (h : DeleteHandle T L S)
      → p.start_block_id ≡ some start
      → p.end_block_id ≡ some (2 ^ 64 - 1)
      → start < 2 ^ 64
      → handle_delete_data_command T L S append_segment fuel interest p h ≡ none
  unfolding handle_delete_data_command
  handle_delete_data_command-endless T fuel interest p start h e g k =
      let ordered : ltb (2 ^ 64 - 1) start ≡ false = ground arith in
      rw (e, g, ordered, delete_segments-endless T fuel (some_or [] p.name) start 0 h.store k) refl

  module _ (Valid : S.State → Type 0) (C : Contract L S Valid) where
    -- After the deletion of consecutive segments, the names that share a key with one of them are
    -- missing, and all others read as before, also those below a deleted name.
    pub read-swept :
        (count : ℕ) (name : Text) (i : ℕ) (j : Text) (s : S.State)
        → Valid s
        → read_data L S j (swept count name i s)
          ≡ (if covers count name i j then missing else read_data L S j s)
    unfolding swept covers
    read-swept zero name i j s v = refl
    read-swept (suc count) name i j s v =
        let n = append_segment name i in
        read-swept count name (suc i) j (delete_data L S n s).1
          (delete_data-Valid L S Valid C n s v)
        ∙ ground (arith, (delete_data_lem L S Valid C n j s v).1)
