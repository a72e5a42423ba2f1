-- ===== src/Transfer/Endless.antt =====
-- The insertion of a client's file, as a check of it sees it.
use difs.Prelude.{
  Text, ℕ, ◌+◌, ◌≤◌, ◌<◌, ◌^◌, length, All, ◌≡◌, refl, sym, subst, ap, ◌∙◌, Bool, true, false, List,
  [], ◌∷◌, Option, none, some, if◌then◌else◌,
}
use difs.Prelude.Assoc.{lookup}
use difs.Tlv.{Tlv}
use difs.Json.{JsonCodec}
use difs.Manifest.{Manifest, InfoDoc, hash_of, from_info_json}
use difs.Command.Parameter
use difs.Command.Parameter.{RepoCommandParameter}
use difs.WriteHandle.Creation.{then_fetch, write_manifest, on_data_validated}
use difs.WriteHandle.Created.{new_manifest, write_manifest_lem}
use difs.Command.Response.{
  RepoCommandResponse, set_body, set_process_id, encode, wire_encode, set_code, set_insert_num,
}
use difs.Storage.{Libs, Storage, Contract}
use difs.WriteHandle.{
  WriteHandle, ProcessInfo, process_at, process_single_insert_command, begin, encoded, seg_init,
  also_sent, last_component, Sent, Outcome, done, set_process, on_segment_data,
}
use difs.WriteHandle.Arrivals.{Storable, halts, feed, state_of, set_process_lem}
use difs.Transfer.Timely.{HasCount, Counts, segment-late}
use difs.Transfer.Counted.{counted_all}

module _ (T : Tlv) (L : Libs) (S : Storage L) where
  -- The response of a process, and the time until which it waits.
  abbrev Answers : ℕ → ℕ → RepoCommandResponse → WriteHandle T L S → Type 0
  Answers pid t r h =
      (v : ProcessInfo) × (lookup pid h.processes ≡ some v) × (v.response ≡ r) × (v.no_end_time ≡ t)

  -- A new process that has no last segment and has counted none.
  abbrev Begun : ℕ → WriteHandle T L S → Type 0
  Begun pid h =
      (v : ProcessInfo) × (lookup pid h.processes ≡ some v)
      × (v.response.end_block_id ≡ none)
      × HasCount 0 v.response

  single-Begun :
      (pid : ℕ) (p : RepoCommandParameter) (h : WriteHandle T L S)
      → lookup pid h.processes ≡ none
      → Begun pid (state_of T L S (process_single_insert_command T L S pid p h))
  unfolding process_single_insert_command begin process_at encoded set_body wire_encode encode
      set_code set_process_id set_insert_num
  single-Begun pid p h new = (_, set_process_lem T L S pid _ h, rw new refl, (refl, refl))

  seg_init-Answers :
      (now pid : ℕ) (name : Text) (hint : Option Text) (h : WriteHandle T L S) (sent : List Sent)
      (v : ProcessInfo)
      → lookup pid h.processes ≡ some v
      → Answers pid (now + 10000) v.response (
          state_of T L S (
            also_sent T L S sent (
              seg_init T L S now 0 pid
                (record Parameter.empty {
                  name = some name;
                  start_block_id = some 0;
                  node_prefix = hint;
                })
                h)))
  unfolding seg_init process_at
  seg_init-Answers now pid name hint h sent v at =
      (_, set_process_lem T L S pid _ h, rw at refl, refl)

  then_fetch-Answers :
      (owner : Text → Option Text) (now pid : ℕ) (name : Text) (hint : Option Text)
      (o : Outcome T L S) (h : WriteHandle T L S) (sent : List Sent) (v : ProcessInfo)
      → o ≡ done h sent
      → lookup pid h.processes ≡ some v
      → Answers pid (now + 10000) v.response (
          state_of T L S (
            then_fetch T L S owner now pid
              (record Parameter.empty {
                name = some name;
                start_block_id = some 0;
                node_prefix = hint;
              })
              o))
  then_fetch-Answers owner now pid name hint o h sent v e at =
      subst
        (λ o. Answers pid (now + 10000) v.response (
          state_of T L S (
            then_fetch T L S owner now pid
              (record Parameter.empty {
                name = some name;
                start_block_id = some 0;
                node_prefix = hint;
              })
              o)))
        (sym e) (seg_init-Answers now pid name hint h sent v at)

  process_at-set_process :
      (pid : ℕ) (v : ProcessInfo) (h : WriteHandle T L S)
      → process_at T L S pid (set_process T L S pid v h) ≡ v
  unfolding process_at
  process_at-set_process pid v h = rw (set_process_lem T L S pid v h) refl

  told-Answers :
      (owner : Text → Option Text) (json : JsonCodec InfoDoc) (now : ℕ) (hint : Option Text)
      (content : Text) (pid : ℕ) (h : WriteHandle T L S) (process : ProcessInfo) (m : Manifest)
      → lookup pid h.processes ≡ some process
      → from_info_json json content ≡ some m
      → ((x : Text) → (repo : Text) × (owner x ≡ some repo))
      → Answers pid
          (now + 10000)
          process.response
          (state_of T L S (on_data_validated T L S owner json now hint content pid h))
  unfolding on_data_validated
  told-Answers owner json now hint content pid h process m at reads owns =
      rw (at, reads) (choose process.manifest_sent)
    where
      process' : ProcessInfo
      process' = record process {
        start_block_id = m.start_block_id;
        end_block_id = m.end_block_id;
        name = 47 ∷ last_component m.name;
        repo = h.repo_prefix;
        manifest_sent = true;
      }

      h' : WriteHandle T L S
      h' = set_process T L S pid process' h

      p : RepoCommandParameter
      p = record Parameter.empty { name = some m.name; start_block_id = some 0; node_prefix = hint }

      choose :
          (b : Bool)
          → Answers pid (now + 10000) process.response (
              state_of T L S (
                then_fetch T L S owner now pid p
                  (if b then done h' [] else write_manifest T L S owner pid h')))
      choose true =
          seg_init-Answers now pid m.name hint h' [] process' (set_process_lem T L S pid process' h)
      choose false =
          let (repo, e) = owns (hash_of L.sha1 (process_at T L S pid h').name) in
          let made = record (process_at T L S pid h') {
            manifest = some (new_manifest T L S owner (process_at T L S pid h'));
          } in
          let (v, held, same, time) =
            then_fetch-Answers owner now pid m.name hint _ _ _ made
              (write_manifest_lem T L S owner pid h' repo e) (set_process_lem T L S pid made h') in
          (
            v,
            held,
            same ∙ ap (λ (w : ProcessInfo). w.response) (process_at-set_process pid process' h),
            time,
          )

  -- The insertion of a client's file, once the client's manifest is read: nothing is counted yet.
  pub told-Counts :
      (owner : Text → Option Text) (json : JsonCodec InfoDoc) (now pid : ℕ) (hint : Option Text)
      (content : Text) (m : Manifest) (p : RepoCommandParameter) (h : WriteHandle T L S)
      → lookup pid h.processes ≡ none
      → from_info_json json content ≡ some m
      → ((x : Text) → (repo : Text) × (owner x ≡ some repo))
      → let asked = state_of T L S (process_single_insert_command T L S pid p h) in
        Counts T L S pid
          (now + 10000)
          0
          (state_of T L S (on_data_validated T L S owner json now hint content pid asked))
  told-Counts owner json now pid hint content m p h new reads owns =
      let asked = state_of T L S (process_single_insert_command T L S pid p h) in
      let (process, at, no_end, count) = single-Begun pid p h new in
      let (v, held, same, time) =
        told-Answers owner json now hint content pid asked process m at reads owns in
      (
        v,
        held,
        (ap (λ (r : RepoCommandResponse). r.end_block_id) same ∙ no_end, time),
        subst (HasCount 0) (sym same) count,
      )

  module _ (Valid : S.State → Type 0) (C : Contract L S Valid) where
    -- A client puts a file to a node that has no process of that number, and the node reads the
    -- client's manifest, where the key space names a node for every hash. Then segments arrive,
    -- fewer than 2^64, each within ten seconds of the reading and none with the identifier that
    -- stands for a failure: the process stays in the map, its response has no last segment, counts
    -- them all, however many they are, and has the code 300, so that the insertion is never reported
    -- as complete. If a segment arrives after that time, the code is 405, and the fetcher is
    -- stopped.
    pub insertion-Counts :
        (owner : Text → Option Text) (json : JsonCodec InfoDoc) (now pid over : ℕ)
        (hint : Option Text) (content : Text) (m : Manifest) (p : RepoCommandParameter)
        (h : WriteHandle T L S) (ds : List (ℕ × L.Data)) (d : L.Data)
        → lookup pid h.processes ≡ none
        → from_info_json json content ≡ some m
        → ((x : Text) → (repo : Text) × (owner x ≡ some repo))
        → All (λ (x : ℕ × L.Data). (x.0 ≤ now + 10000) × Storable T L S x.1) ds
        → length ds < 2 ^ 64
        → now + 10000 < over
        → let asked = state_of T L S (process_single_insert_command T L S pid p h) in
          let told =
            state_of T L S (on_data_validated T L S owner json now hint content pid asked) in
          let node = feed T L S ds pid told in
          let tardy = on_segment_data T L S over d pid node in
          Counts T L S pid (now + 10000) (length ds) node
          × (w : ProcessInfo) × (lookup pid (state_of T L S tardy).processes ≡ some w)
          × (w.response.code ≡ some 405)
          × (halts T L S tardy ≡ true)
    insertion-Counts owner json now pid over hint content m p h ds d new reads owns good fits late =
        let asked = state_of T L S (process_single_insert_command T L S pid p h) in
        let told = state_of T L S (on_data_validated T L S owner json now hint content pid asked) in
        let node = feed T L S ds pid told in
        let counts : Counts T L S pid (now + 10000) (length ds) node =
          counted_all T L S Valid C ds pid (now + 10000) told good fits
            (told-Counts owner json now pid hint content m p h new reads owns) in
        let (v, at, k, count) = counts in
        let (w, held, code, halt) = segment-late T L S over pid (now + 10000) d node v at k late in
        (counts, w, held, code, halt)
