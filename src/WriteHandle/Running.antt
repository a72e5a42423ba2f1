-- ===== src/WriteHandle/Running.antt =====
-- The process of an insertion whose last segment is known, as its segments arrive.
use difs.Prelude.{
  Text, ℕ, suc, ◌+◌, ◌-◌, ◌%◌, ◌^◌, ◌≤◌, ◌<◌, ◌≡◌, refl, ap, ◌∙◌, inl, inr, leb, ◌==◌, Bool-cases,
  true, false, List, [], ◌∷◌, Option, none, some, length, All, if◌then◌else◌, arith,
}
use difs.Prelude.Int.{to_i32}
use difs.Prelude.Assoc.{lookup}
use difs.Tlv.{Tlv}
use difs.Command.Response.{set_code, set_insert_num}
use difs.Storage.{Libs, Storage, Contract}
use difs.Storage.RepoStorage.{insert_data}
use difs.WriteHandle.Arrivals.{
  state_of, halts, feed, set_process_lem, goes_on, last_one, Storable, state_of-signals,
  halts-signals, stored,
}
use difs.WriteHandle.{ProcessInfo, WriteHandle, signals, after_segment, on_segment_data}

-- A process that fetches the segments from `s` to `e`, with a code, a count and a cached wire.
abbrev pub running : Option Text → ℕ → ℕ → ℕ → ℕ → ProcessInfo → ProcessInfo
running w c s e n v = record v {
  response = record v.response {
    code = some c;
    start_block_id = some s;
    end_block_id = some e;
    insert_num = some n;
    wire = w;
  };
  end_block_id = to_i32 e;
}

module _ (T : Tlv) (L : Libs) (S : Storage L) where
  segments : (s e : ℕ) → s ≤ e → suc e < 2 ^ 64 → (e + 2 ^ 64 - s + 1) % 2 ^ 64 ≡ suc e - s
  segments s e h k = omega arith

  after_segment_lem :
      (w : Option Text) (s e n now pid : ℕ) (v : ProcessInfo) (h : WriteHandle T L S)
      → s ≤ e
      → suc e < 2 ^ 64
      → n ≤ suc e - s
      → lookup pid
          (state_of T L S (after_segment T L S now pid (running w 300 s e n v) h)).processes
        ≡ some (running w (if n == suc e - s then 200 else 300) s e n v)
  unfolding after_segment set_code
  after_segment_lem w s e n now pid v h k l m = elim (Bool-cases (n == suc e - s)) [
    | inl full ↦
        let stop : leb (suc e - s) n ≡ true = ground arith in
        rw (full, segments s e k l, stop) (set_process_lem T L S pid (running w 200 s e n v) h)
    | inr short ↦
        let go : leb (suc e - s) n ≡ false = ground arith in
        rw (short, segments s e k l, go) (set_process_lem T L S pid (running w 300 s e n v) h)
  ]

  after_segment-goes_on :
      (w : Option Text) (s e n now pid : ℕ) (v : ProcessInfo) (h : WriteHandle T L S)
      → s ≤ e
      → suc e < 2 ^ 64
      → n < suc e - s
      → halts T L S (after_segment T L S now pid (running w 300 s e n v) h) ≡ false
  unfolding after_segment
  after_segment-goes_on w s e n now pid v h k l m =
      let go : leb (suc e - s) n ≡ false = ground arith in rw (segments s e k l, go) refl

  module _ (Valid : S.State → Type 0) (C : Contract L S Valid) where
    on_segment_data_lem :
        (w : Option Text) (s e n now pid : ℕ) (v : ProcessInfo) (d : L.Data) (h : WriteHandle T L S)
        → s ≤ e
        → suc e < 2 ^ 64
        → n < suc e - s
        → Storable T L S d
        → lookup pid h.processes ≡ some (running w 300 s e n v)
        → lookup pid (state_of T L S (on_segment_data T L S now d pid h)).processes
          ≡ some (running none (if suc n == suc e - s then 200 else 300) s e (suc n) v)
    unfolding on_segment_data set_insert_num
    on_segment_data_lem w s e n now pid v d h k l m good at =
        let next : (n + 1) % 2 ^ 64 ≡ suc n = omega arith in
        let h' = record h { store = (insert_data L S d h.store).1 } in
        rw (at, stored T L S Valid C d h.store good, next)
          (ap (λ (g : WriteHandle T L S). lookup pid g.processes)
              (state_of-signals T L S (signals T L S (insert_data L S d h.store).0.signal)
                (after_segment T L S now pid (running none 300 s e (suc n) v) h'))
            ∙ after_segment_lem none s e (suc n) now pid v h' k l (omega arith))

    on_segment_data-goes_on :
        (w : Option Text) (s e n now pid : ℕ) (v : ProcessInfo) (d : L.Data) (h : WriteHandle T L S)
        → s ≤ e
        → suc e < 2 ^ 64
        → suc n < suc e - s
        → Storable T L S d
        → lookup pid h.processes ≡ some (running w 300 s e n v)
        → halts T L S (on_segment_data T L S now d pid h) ≡ false
    unfolding on_segment_data set_insert_num
    on_segment_data-goes_on w s e n now pid v d h k l m good at =
        let next : (n + 1) % 2 ^ 64 ≡ suc n = omega arith in
        let h' = record h { store = (insert_data L S d h.store).1 } in
        rw (at, stored T L S Valid C d h.store good, next)
          (halts-signals T L S (insert_data L S d h.store).0.signal
              (after_segment T L S now pid (running none 300 s e (suc n) v) h')
            ∙ after_segment-goes_on none s e (suc n) now pid v h' k l m)

    pub feed_lem :
        (w : Option Text) (s e n pid : ℕ) (v : ProcessInfo) (d : ℕ × L.Data)
        (ds : List (ℕ × L.Data)) (h : WriteHandle T L S)
        → s ≤ e
        → suc e < 2 ^ 64
        → n + length (d ∷ ds) ≤ suc e - s
        → All (λ (x : ℕ × L.Data). Storable T L S x.1) (d ∷ ds)
        → lookup pid h.processes ≡ some (running w 300 s e n v)
        → lookup pid (feed T L S (d ∷ ds) pid h).processes
          ≡ some (
              running none
                (if n + length (d ∷ ds) == suc e - s then 200 else 300)
                s
                e
                (n + length (d ∷ ds))
                v)
    feed_lem w s e n pid v d [] h k l m good at =
        ap (λ (g : WriteHandle T L S). lookup pid g.processes) (last_one T L S d.0 pid d.1 h)
        ∙ on_segment_data_lem w s e n d.0 pid v d.1 h k l (omega arith) good.0 at
        ∙ ap (λ (m : ℕ). some (running none (if m == suc e - s then 200 else 300) s e m v))
            (omega arith)
    feed_lem w s e n pid v d (d' ∷ ds) h k l m good at =
        let h1 = state_of T L S (on_segment_data T L S d.0 d.1 pid h) in
        let short : (suc n == suc e - s) ≡ false = ground arith in
        let at1 : lookup pid h1.processes ≡ some (running none 300 s e (suc n) v) =
          on_segment_data_lem w s e n d.0 pid v d.1 h k l (omega arith) good.0 at ∙ rw short refl in
        ap (λ (g : WriteHandle T L S). lookup pid g.processes)
          (goes_on T L S d.0 pid d.1 (d' ∷ ds) h
            (on_segment_data-goes_on w s e n d.0 pid v d.1 h k l (omega arith) good.0 at))
        ∙ feed_lem none s e (suc n) pid v d' ds h1 k l (omega arith) good.1 at1
        ∙ ap (λ (m : ℕ). some (running none (if m == suc e - s then 200 else 300) s e m v))
            (omega arith)
