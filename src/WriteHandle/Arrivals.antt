-- ===== src/WriteHandle/Arrivals.antt =====
-- The segments that arrive for a process of src/handles/write-handle.cpp, one after another.
use difs.Prelude.{
  Text, ℕ, ◌≡◌, refl, inl, inr, Bool, Bool-cases, true, false, List, [], ◌∷◌, Option, none, some,
  if◌then◌else◌, arith,
}
use difs.Prelude.Int.{int_eq}
use difs.Prelude.Assoc.{lookup, put}
use difs.Tlv.{Tlv}
use difs.Storage.{Libs, Storage, Contract, hash_id}
use difs.Storage.RepoStorage.{not_found, insert_data}
use difs.Storage.RepoStorage.Laws.{insert_data-reply}
use difs.WriteHandle.{
  ProcessInfo, WriteHandle, Outcome, done, threw, Sent, stopped, process_at, set_process, also_sent,
  signals, after_segment, on_segment_data, counted,
}

module _ (T : Tlv) (L : Libs) (S : Storage L) where
  abbrev pub state_of : Outcome T L S → WriteHandle T L S
  state_of (done h sent) = h
  state_of (threw h sent) = h

  abbrev pub sent_of : Outcome T L S → List Sent
  sent_of (done h sent) = sent
  sent_of (threw h sent) = sent

  -- Whether `fetcher.stop()` is called.
  abbrev stops : List Sent → Bool
  stops [] = false
  stops (stopped ∷ sent) = true
  stops (other ∷ sent) = stops sent

  abbrev pub halts : Outcome T L S → Bool
  halts o = stops (sent_of o)

  -- The segments that arrive, each with its time. A fetcher that is stopped delivers none of the
  -- segments after that; the deletion of the process, ten seconds later, is still to come.
  unfoldable pub feed : List (ℕ × L.Data) → ℕ → WriteHandle T L S → WriteHandle T L S
  feed [] pid h = h
  feed ((now, d) ∷ ds) pid h =
      let o = on_segment_data T L S now d pid h in
      let rest = feed ds pid (state_of o) in if halts o then state_of o else rest

  -- The code and the count of a process.
  unfoldable pub status : ℕ → WriteHandle T L S → Option ℕ × Option ℕ
  status pid h =
      ((process_at T L S pid h).response.code, (process_at T L S pid h).response.insert_num)

  pub set_process_lem :
      (pid : ℕ) (v : ProcessInfo) (h : WriteHandle T L S)
      → lookup pid (set_process T L S pid v h).processes ≡ some v
  unfolding set_process lookup put
  set_process_lem pid v h = ground arith

  pub goes_on :
      (now pid : ℕ) (d : L.Data) (ds : List (ℕ × L.Data)) (h : WriteHandle T L S)
      → halts (on_segment_data T L S now d pid h) ≡ false
      → feed ((now, d) ∷ ds) pid h ≡ feed ds pid (state_of (on_segment_data T L S now d pid h))
  unfolding feed
  goes_on now pid d ds h e = rw e refl

  pub last_one :
      (now pid : ℕ) (d : L.Data) (h : WriteHandle T L S)
      → feed ((now, d) ∷ []) pid h ≡ state_of (on_segment_data T L S now d pid h)
  unfolding feed
  last_one now pid d h = elim (Bool-cases (halts (on_segment_data T L S now d pid h))) [
    | inl stop ↦ rw stop refl
    | inr go ↦ rw go refl
  ]

  -- A packet whose insertion does not return the number that stands for a failure.
  abbrev pub Storable : L.Data → Type 0
  Storable d = int_eq (hash_id (L.get_name d)) not_found ≡ false

  pub state_of-signals :
      (sent : List Sent) (o : Outcome T L S) → state_of (also_sent T L S sent o) ≡ state_of o
  state_of-signals sent (done h more) = refl
  state_of-signals sent (threw h more) = refl

  pub halts-signals :
      (name : Option Text) (o : Outcome T L S)
      → halts (also_sent T L S (signals T L S name) o) ≡ halts o
  halts-signals none (done h more) = refl
  halts-signals none (threw h more) = refl
  halts-signals (some name) (done h more) = refl
  halts-signals (some name) (threw h more) = refl

  -- The process with the response after a segment, and what follows.
  pub segment-at :
      (now pid : ℕ) (d : L.Data) (h : WriteHandle T L S) (v : ProcessInfo)
      → lookup pid h.processes ≡ some v
      → let (reply, store) = insert_data L S d h.store in
        let o =
          after_segment T L S now pid
            (record v { response = counted T L S reply.value v.response })
            (record h { store = store }) in
        (state_of (on_segment_data T L S now d pid h) ≡ state_of o)
        × (halts (on_segment_data T L S now d pid h) ≡ halts o)
  unfolding on_segment_data
  segment-at now pid d h v at =
      let (reply, store) = insert_data L S d h.store in
      let o =
        after_segment T L S now pid (record v { response = counted T L S reply.value v.response })
          (record h { store = store }) in
      (
        rw at (state_of-signals (signals T L S reply.signal) o),
        rw at (halts-signals reply.signal o),
      )

  module _ (Valid : S.State → Type 0) (C : Contract L S Valid) where
    pub stored : (d : L.Data) (s : S.State) → Storable d → (insert_data L S d s).0.value ≡ true
    stored d s k = rw (insert_data-reply L S Valid C d s) (ground (arith, k))
