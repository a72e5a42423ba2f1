-- ===== src/Transfer/Fetched.antt =====
-- A file that is put, stored by a node, and read back from it.
use difs.Prelude.{
  Text, ℕ, suc, ◌<◌, ◌≤◌, ◌/◌, ◌%◌, ◌^◌, ◌≡◌, refl, sym, subst, ap, ◌∙◌, List, [], ◌∷◌, some, map,
  length,
}
use difs.Tlv.{Tlv}
use difs.Storage.{Libs, Storage, Contract}
use difs.Storage.RepoStorage.{read_data}
use difs.Client.{Segment, put_file_prepare_next_data, written}
use difs.Client.File.{Numbered, put-then_get}
use difs.WriteHandle.{WriteHandle, on_segment_data}
use difs.WriteHandle.Arrivals.{goes_on, feed, state_of}
use difs.Transfer.Timely.{Waits, counted_process, segment-in_time}
use difs.ReadHandle.{ReadHandle, on_interest}
use difs.Transfer.{Packets, fetch_file, insert_all}
use difs.Transfer.Kept.{data_of, AllRead, AllNew, Apart, insert_all-AllRead}

module _ (L : Libs) (S : Storage L) (K : Packets L) (name : Text) where
  fetch_file-AllRead :
      (first : ℕ) (ts : List Segment) (h : ReadHandle L S)
      → Numbered first ts
      → AllRead L S K name ts h.store
      → fetch_file L S K name (length ts) first h ≡ some (written ts)
  unfolding fetch_file on_interest written
  fetch_file-AllRead first [] h n k = refl
  fetch_file-AllRead first (t ∷ ts) h n k =
      let reads = ap (λ i. read_data L S (K.append_segment name i) h.store) (sym n.0) ∙ k.0 in
      rw (reads, fetch_file-AllRead (suc first) ts h n.1 k.1, K.get_content-make_data name t) refl

  module _ (T : Tlv) where
    -- The segments that arrive, each at a time.
    abbrev pub arriving : (Segment → ℕ) → List Segment → List (ℕ × L.Data)
    arriving time ts = map (λ t. (time t, data_of L S K name t)) ts

    feed-store :
        (time : Segment → ℕ) (ts : List Segment) (pid t : ℕ) (h : WriteHandle T L S)
        → ((s : Segment) → time s ≤ t)
        → Waits T L S pid t h
        → (feed T L S (arriving time ts) pid h).store ≡ insert_all L S K name ts h.store
    unfolding feed insert_all
    feed-store time [] pid t h in_time k = refl
    feed-store time (s ∷ ts) pid t h in_time (v, at, k) =
        let d = data_of L S K name s in
        let o = on_segment_data T L S (time s) d pid h in
        let (at', on, kept, k') = segment-in_time T L S (time s) pid t d h v at k (in_time s) in
        ap (λ (g : WriteHandle T L S). g.store)
          (goes_on T L S (time s) pid d (arriving time ts) h on)
        ∙ feed-store time ts pid t (state_of T L S o) in_time (counted_process T L S d h v, at', k')
        ∙ ap (insert_all L S K name ts) kept

    module _ (Valid : S.State → Type 0) (C : Contract L S Valid) where
      -- The packets of a file go to a node with a process for them, and are read back from it.
      pub feed-fetch_file :
          (time : Segment → ℕ) (pid t : ℕ) (h : WriteHandle T L S) (reader : ReadHandle L S)
          (file : Text) (size : ℕ)
          → 0 < size
          → length file / size < 2 ^ 31
          → 0 < length file % size
          → ((s : Segment) → time s ≤ t)
          → Waits T L S pid t h
          → Valid h.store
          → Apart L S K name (put_file_prepare_next_data file size)
          → AllNew L S K name (put_file_prepare_next_data file size) h.store
          → fetch_file L S K name (suc (length file / size)) 0 (record reader {
            store = (feed T L S (arriving time (put_file_prepare_next_data file size)) pid h).store;
          })
            ≡ some file
      feed-fetch_file time pid t h reader file size positive fits rest in_time at valid apart new =
          let packets = put_file_prepare_next_data file size in
          let (whole, numbers, count) = put-then_get file size positive fits rest in
          let node : S.State = (feed T L S (arriving time packets) pid h).store in
          ap (λ n. fetch_file L S K name n 0 (record reader { store = node })) (sym count)
          ∙ fetch_file-AllRead 0 packets (record reader { store = node }) numbers
              (subst (AllRead L S K name packets) (sym (feed-store time packets pid t h in_time at))
                (insert_all-AllRead L S K name Valid C packets h.store valid apart new))
          ∙ ap some whole
