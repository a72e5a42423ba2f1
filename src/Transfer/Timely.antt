-- ===== src/Transfer/Timely.antt =====
-- The segments that arrive in time for a process of src/handles/write-handle.cpp with no last
-- segment.
use difs.Prelude.{
  ℕ, ltb, ◌≤◌, ◌<◌, ◌≡◌, refl, ap, ◌∙◌, Bool, true, false, List, [], ◌∷◌, Option, none, some,
  if◌then◌else◌, arith,
}
use difs.Prelude.Int.{to_i32}
use difs.Prelude.Assoc.{lookup}
use difs.Tlv.{Tlv}
use difs.Command.Response.{RepoCommandResponse, set_code, set_insert_num}
use difs.Storage.{Libs, Storage}
use difs.Storage.RepoStorage.{insert_data}
use difs.WriteHandle.{
  WriteHandle, ProcessInfo, Sent, done, deferred, stopped, late, complete, note_end, counted,
  set_process, after_segment, on_segment_data,
}
use difs.WriteHandle.Arrivals.{state_of, halts, segment-at, set_process_lem}

-- A process with no last segment that waits until `t`.
abbrev pub IsWaiting : ℕ → ProcessInfo → Type 0
IsWaiting t v = (v.response.end_block_id ≡ none) × (v.no_end_time ≡ t)

-- Its insertion goes on and has `n` segments.
abbrev pub HasCount : ℕ → RepoCommandResponse → Type 0
HasCount n r = (r.code ≡ some 300) × (r.insert_num ≡ some n)

-- And no encoding is cached, so that these numbers are what is sent.
abbrev pub IsFresh : ℕ → RepoCommandResponse → Type 0
IsFresh n r = (r.code ≡ some 300) × (r.insert_num ≡ some n) × (r.wire ≡ none)

module _ (T : Tlv) (L : Libs) (S : Storage L) where
  abbrev pub Waits : ℕ → ℕ → WriteHandle T L S → Type 0
  Waits pid t h = (v : ProcessInfo) × (lookup pid h.processes ≡ some v) × IsWaiting t v

  abbrev pub Counts : ℕ → ℕ → ℕ → WriteHandle T L S → Type 0
  Counts pid t n h =
      (v : ProcessInfo) × (lookup pid h.processes ≡ some v) × IsWaiting t v × HasCount n v.response

  abbrev pub Fresh : ℕ → ℕ → ℕ → WriteHandle T L S → Type 0
  Fresh pid t n h =
      (v : ProcessInfo) × (lookup pid h.processes ≡ some v) × IsWaiting t v × IsFresh n v.response

  complete-false : (r : RepoCommandResponse) → r.end_block_id ≡ none → complete T L S r ≡ false
  complete-false r e = rw e refl

  late_lem : (now t : ℕ) (v : ProcessInfo) → IsWaiting t v → late T L S now v ≡ ltb t now
  late_lem now t v k = rw (k.0, k.1) refl

  note_end-same : (v : ProcessInfo) → v.response.end_block_id ≡ none → note_end T L S v ≡ v
  note_end-same v e = split v.response.end_block_id e
    where
      split :
          (o : Option ℕ)
          → o ≡ none
          → (elim o as (λ _. ProcessInfo) [
            | none ↦ v
            | some end ↦ record v { end_block_id = to_i32 end }
          ])
            ≡ v
      split none e = refl
      split (some end) e = cc

  after_segment-waiting :
      (now pid t : ℕ) (v : ProcessInfo) (h : WriteHandle T L S)
      → IsWaiting t v
      → after_segment T L S now pid v h ≡ (
          if ltb t now
          then done
              (set_process T L S pid (record v { response = set_code 405 v.response }) h)
              (deferred pid ∷ stopped ∷ [])
          else done (set_process T L S pid v h) [])
  unfolding after_segment
  after_segment-waiting now pid t v h k =
      choose (late T L S now v) (ltb t now) (complete T L S v.response)
        (record v { response = set_code 405 v.response })
        (record (note_end T L S v) { response = set_code 200 v.response }) (note_end T L S v)
        (deferred pid ∷ stopped ∷ []) (deferred pid ∷ stopped ∷ []) [] (late_lem now t v k)
        (complete-false v.response k.0) (note_end-same v k.0)
    where
      choose :
          (a a' b : Bool) (x y z : ProcessInfo) (l m s : List Sent)
          → a ≡ a'
          → b ≡ false
          → z ≡ v
          → (if a
              then done (set_process T L S pid x h) l
              else if b
              then done (set_process T L S pid y h) m
              else done (set_process T L S pid z h) s)
            ≡ (if a'
                then done (set_process T L S pid x h) l
                else done (set_process T L S pid v h) s)
      choose a a' b x y z l m s e g i = rw (e, g, i) refl

  counted-same :
      (b : Bool) (r : RepoCommandResponse)
      → r.end_block_id ≡ none
      → (counted T L S b r).end_block_id ≡ none
  unfolding set_insert_num
  counted-same true r e = e
  counted-same false r e = e

  -- The process after a segment that arrives in time.
  abbrev pub counted_process : L.Data → WriteHandle T L S → ProcessInfo → ProcessInfo
  counted_process d h v = record v {
    response = counted T L S (insert_data L S d h.store).0.value v.response;
  }

  -- A segment that arrives in time: it is stored, the process stays, and the fetcher goes on.
  pub segment-in_time :
      (now pid t : ℕ) (d : L.Data) (h : WriteHandle T L S) (v : ProcessInfo)
      → lookup pid h.processes ≡ some v
      → IsWaiting t v
      → now ≤ t
      → let o = on_segment_data T L S now d pid h in
        (lookup pid (state_of T L S o).processes ≡ some (counted_process d h v))
        × (halts T L S o ≡ false)
        × ((state_of T L S o).store ≡ (insert_data L S d h.store).1)
        × IsWaiting t (counted_process d h v)
  unfolding set_process
  segment-in_time now pid t d h v at k in_time =
      let v' = counted_process d h v in
      let h' = record h { store = (insert_data L S d h.store).1 } in
      let k' : IsWaiting t v' =
        (counted-same (insert_data L S d h.store).0.value v.response k.0, k.1) in
      let early : ltb t now ≡ false = ground arith in
      let same : after_segment T L S now pid v' h' ≡ done (set_process T L S pid v' h') [] =
        after_segment-waiting now pid t v' h' k' ∙ rw early refl in
      let (state, halt) = segment-at T L S now pid d h v at in
      (
        ap (λ (g : WriteHandle T L S). lookup pid g.processes) (state ∙ ap (state_of T L S) same)
            ∙ set_process_lem T L S pid v' h',
        halt ∙ ap (halts T L S) same,
        ap (λ (g : WriteHandle T L S). g.store) (state ∙ ap (state_of T L S) same),
        k',
      )

  -- A segment that arrives late: the code is 405, and the fetcher is stopped.
  pub segment-late :
      (now pid t : ℕ) (d : L.Data) (h : WriteHandle T L S) (v : ProcessInfo)
      → lookup pid h.processes ≡ some v
      → IsWaiting t v
      → t < now
      → let o = on_segment_data T L S now d pid h in
        (w : ProcessInfo) × (lookup pid (state_of T L S o).processes ≡ some w)
        × (w.response.code ≡ some 405)
        × (halts T L S o ≡ true)
  unfolding set_code
  segment-late now pid t d h v at k over =
      let v' = counted_process d h v in
      let h' = record h { store = (insert_data L S d h.store).1 } in
      let w = record v' { response = set_code 405 v'.response } in
      let k' : IsWaiting t v' =
        (counted-same (insert_data L S d h.store).0.value v.response k.0, k.1) in
      let tardy : ltb t now ≡ true = ground arith in
      let same : after_segment T L S now pid v' h'
          ≡ done (set_process T L S pid w h') (deferred pid ∷ stopped ∷ []) =
        after_segment-waiting now pid t v' h' k' ∙ rw tardy refl in
      let (state, halt) = segment-at T L S now pid d h v at in
      (
        w,
        ap (λ (g : WriteHandle T L S). lookup pid g.processes) (state ∙ ap (state_of T L S) same)
            ∙ set_process_lem T L S pid w h',
        refl,
        halt ∙ ap (halts T L S) same,
      )
