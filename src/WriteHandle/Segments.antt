-- ===== src/WriteHandle/Segments.antt =====
-- The segments of an insertion, and the status T L S that the response shows.
use difs.Prelude.{
  Text, ℕ, suc, ◌-◌, ◌^◌, ◌≤◌, ◌<◌, ◌≡◌, refl, ap, ◌∙◌, ltb, ◌==◌, true, false, List, [], ◌∷◌,
  Option, none, some, length, All, if◌then◌else◌, arith,
}
use difs.Prelude.Int.{to_i32}
use difs.Prelude.Assoc.{lookup}
use difs.Tlv.{Tlv}
use difs.Command.Parameter.{RepoCommandParameter}
use difs.Command.Response.{
  RepoCommandResponse, set_code, set_insert_num, set_process_id, set_start_block_id,
  set_end_block_id, set_body, encode, wire_encode,
}
use difs.Storage.{Libs, Storage, Contract}
use difs.WriteHandle.Arrivals.{state_of, feed, set_process_lem, Storable, state_of-signals, status}
use difs.WriteHandle.{
  ProcessInfo, WriteHandle, Outcome, answered, encoded, process_at, seg_init, also_sent, begin,
  process_segmented_insert_command,
}
use difs.WriteHandle.Running.{running, feed_lem}

module _ (T : Tlv) (L : Libs) (S : Storage L) where
  module _ (Valid : S.State → Type 0) (C : Contract L S Valid) where
    seg_init-process :
        (now unset pid : ℕ) (p : RepoCommandParameter) (h : WriteHandle T L S) (v : ProcessInfo)
        (e : ℕ)
        → p.end_block_id ≡ some e
        → lookup pid h.processes ≡ some v
        → lookup pid (state_of T L S (seg_init T L S now unset pid p h)).processes
          ≡ some (record v { end_block_id = to_i32 e })
    unfolding seg_init process_at
    seg_init-process now unset pid p h v e g at =
        let self : (pid == pid) ≡ true = ground arith in rw (self, g, at) refl

    -- The response of a new process, when it is sent, and the process after it.
    abbrev new_response : ℕ → ℕ → ℕ → WriteHandle T L S → RepoCommandResponse
    new_response pid s e h = set_end_block_id e (
        set_start_block_id s
          (set_insert_num 0 (set_process_id pid (set_code 100 (process_at T L S pid h).response))))

    abbrev new_process : ℕ → ℕ → ℕ → WriteHandle T L S → ProcessInfo
    new_process pid s e h = record (process_at T L S pid h) {
      response = set_code 300 (encoded T (new_response pid s e h));
    }

    accepted :
        (now unset pid s e : ℕ) (p : RepoCommandParameter) (h : WriteHandle T L S)
        → p.start_block_id ≡ some s
        → p.end_block_id ≡ some e
        → s ≤ e
        → process_segmented_insert_command T L S now unset pid p h
          ≡ also_sent T L S
              (answered (encoded T (new_response pid s e h)) ∷ [])
              (seg_init T L S now unset pid p (begin T L S pid (new_response pid s e h) h))
    unfolding process_segmented_insert_command
    accepted now unset pid s e p h g f k =
        let ordered : ltb e s ≡ false = ground arith in simp (f, g, ordered) refl

    runs :
        (pid s e : ℕ) (h : WriteHandle T L S)
        → (w : Option Text) × (v : ProcessInfo) × (record (new_process pid s e h) {
          end_block_id = to_i32 e;
        }
            ≡ running w 300 s e 0 v)
    unfolding encoded set_body wire_encode encode set_code set_process_id set_insert_num
        set_start_block_id set_end_block_id
    runs pid s e h = (_, new_process pid s e h, refl)

    begun :
        (now unset pid s e : ℕ) (p : RepoCommandParameter) (h : WriteHandle T L S)
        → p.start_block_id ≡ some s
        → p.end_block_id ≡ some e
        → s ≤ e
        → (w : Option Text) × (v : ProcessInfo) × (lookup pid
              (state_of T L S (process_segmented_insert_command T L S now unset pid p h)).processes
            ≡ some (running w 300 s e 0 v))
    unfolding begin
    begun now unset pid s e p h g f k =
        let (w, v, same) = runs pid s e h in
        let h1 = begin T L S pid (new_response pid s e h) h in
        let at =
          seg_init-process now unset pid p h1 (new_process pid s e h) e f
            (set_process_lem T L S pid (new_process pid s e h) h) in
        (
          w,
          v,
          ap (λ (o : Outcome T L S). lookup pid (state_of T L S o).processes)
                (accepted now unset pid s e p h g f k)
              ∙ ap (λ (g1 : WriteHandle T L S). lookup pid g1.processes)
                  (state_of-signals T L S (answered (encoded T (new_response pid s e h)) ∷ [])
                    (seg_init T L S now unset pid p h1))
              ∙ at
              ∙ ap (λ (v1 : ProcessInfo). some v1) same,
        )

    insertion-running :
        (now unset pid s e : ℕ) (p : RepoCommandParameter) (h : WriteHandle T L S) (d : ℕ × L.Data)
        (ds : List (ℕ × L.Data))
        → p.start_block_id ≡ some s
        → p.end_block_id ≡ some e
        → s ≤ e
        → suc e < 2 ^ 64
        → length (d ∷ ds) ≤ suc e - s
        → All (λ (x : ℕ × L.Data). Storable T L S x.1) (d ∷ ds)
        → (v : ProcessInfo) × (lookup pid
              (feed T L S (d ∷ ds) pid (
                state_of T L S
                  (process_segmented_insert_command T L S now unset pid p h))).processes
            ≡ some (
                running none
                  (if length (d ∷ ds) == suc e - s then 200 else 300)
                  s
                  e
                  (length (d ∷ ds))
                  v))
    insertion-running now unset pid s e p h d ds g f k l m good =
        let (w, v, at) = begun now unset pid s e p h g f k in
        let h' = state_of T L S (process_segmented_insert_command T L S now unset pid p h) in
        (
          v,
          feed_lem T L S Valid C w s e 0 pid v d ds h' k l (omega arith) good at
              ∙ ap (λ (n : ℕ). some (running none (if n == suc e - s then 200 else 300) s e n v))
                  (omega arith),
        )

    -- A segmented insertion of the segments from `s` to `e`, where `e` is not the last 64-bit
    -- number: after it has begun and any number of packets has arrived, one at least and as many as
    -- it has segments at most, none with the identifier that stands for a failure, the response
    -- counts them all, and its code is 200 exactly if they are as many as the segments, and 300
    -- before. A packet that arrives twice is counted twice.
    pub insertion-status :
        (now unset pid s e : ℕ) (p : RepoCommandParameter) (h : WriteHandle T L S) (d : ℕ × L.Data)
        (ds : List (ℕ × L.Data))
        → p.start_block_id ≡ some s
        → p.end_block_id ≡ some e
        → s ≤ e
        → suc e < 2 ^ 64
        → length (d ∷ ds) ≤ suc e - s
        → All (λ (x : ℕ × L.Data). Storable T L S x.1) (d ∷ ds)
        → status T L S pid (
            feed T L S
              (d ∷ ds)
              pid
              (state_of T L S (process_segmented_insert_command T L S now unset pid p h)))
          ≡ (some (if length (d ∷ ds) == suc e - s then 200 else 300), some (length (d ∷ ds)))
    unfolding status process_at
    insertion-status now unset pid s e p h d ds g f k l m good =
        rw (insertion-running now unset pid s e p h d ds g f k l m good).1 refl
