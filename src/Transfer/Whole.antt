-- ===== src/Transfer/Whole.antt =====
-- A file that a client puts, as the node goes about it: the insertion, the client's manifest, the
-- segments; and a client that reads it.
use difs.Prelude.{
  Text, ℕ, suc, ◌+◌, ◌≤◌, ◌<◌, ◌/◌, ◌%◌, ◌^◌, ◌≡◌, refl, sym, subst, ◌∙◌, Bool, true, false, List,
  [], ◌∷◌, Option, none, some, length, if◌then◌else◌,
}
use difs.Prelude.Assoc.{lookup}
use difs.Json.{JsonCodec}
use difs.Tlv.{Tlv}
use difs.Manifest.{Manifest, InfoDoc, hash_of, to_info_json, from_info_json}
use difs.Manifest.Documents.{from_info_json-to_info_json}
use difs.Command.Parameter
use difs.Command.Parameter.{RepoCommandParameter}
use difs.Command.Response.{RepoCommandResponse, set_code, set_process_id, set_insert_num}
use difs.Storage.{Libs, Storage, Contract}
use difs.Client.{Segment, put_file_prepare_next_data, file_manifest}
use difs.WriteHandle.{
  WriteHandle, ProcessInfo, Outcome, done, Sent, set_process, process_at, begin, encoded,
  last_component, seg_process, seg_init, also_sent, process_single_insert_command,
}
use difs.WriteHandle.Creation.{then_fetch, write_manifest, on_data_validated}
use difs.WriteHandle.Created.{write_manifest_lem}
use difs.WriteHandle.Arrivals.{feed, state_of, set_process_lem}
use difs.ReadHandle.{ReadHandle}
use difs.Transfer.{Packets, fetch_file}
use difs.Transfer.Kept.{AllNew, Apart}
use difs.Transfer.Fetched.{arriving, feed-fetch_file}
use difs.Transfer.Endless.{told-Counts}

module _ (L : Libs) (S : Storage L) (K : Packets L) (name : Text) (T : Tlv)
    (owner : Text → Option Text) (json : JsonCodec InfoDoc) where
  -- The process is in the map, and the storage is as it was.
  abbrev Holds : ℕ → S.State → WriteHandle T L S → Type 0
  Holds pid s h = (h.store ≡ s) × (v : ProcessInfo) × (lookup pid h.processes ≡ some v)

  set_process-Holds :
      (pid : ℕ) (v : ProcessInfo) (h : WriteHandle T L S)
      → Holds pid h.store (set_process T L S pid v h)
  unfolding set_process
  set_process-Holds pid v h = (refl, v, set_process_lem T L S pid v h)

  begin-Holds :
      (pid : ℕ) (r : RepoCommandResponse) (h : WriteHandle T L S)
      → Holds pid h.store (begin T L S pid r h)
  unfolding begin
  begin-Holds pid r h =
      set_process-Holds pid
        (record (process_at T L S pid h) { response = set_code 300 (encoded T r) }) h

  -- The new process of an insertion.
  single-Holds :
      (pid : ℕ) (p : RepoCommandParameter) (h : WriteHandle T L S)
      → Holds pid h.store (state_of T L S (process_single_insert_command T L S pid p h))
  unfolding process_single_insert_command
  single-Holds pid p h =
      begin-Holds pid
        (set_insert_num 0 (set_process_id pid (set_code 100 (process_at T L S pid h).response))) h

  -- The fetcher is started.
  seg_init-Holds :
      (now unset pid : ℕ) (p : RepoCommandParameter) (h : WriteHandle T L S) (sent : List Sent)
      → Holds pid h.store (state_of T L S (also_sent T L S sent (seg_init T L S now unset pid p h)))
  unfolding seg_init
  seg_init-Holds now unset pid p h sent =
      set_process-Holds pid (seg_process T L S now p (process_at T L S pid h)) h

  then_fetch-Holds :
      (now pid : ℕ) (p : RepoCommandParameter) (s : S.State) (o : Outcome T L S)
      (h : WriteHandle T L S) (sent : List Sent)
      → o ≡ done h sent
      → h.store ≡ s
      → Holds pid s (state_of T L S (then_fetch T L S owner now pid p o))
  then_fetch-Holds now pid p s o h sent e g =
      subst (λ o. Holds pid s (state_of T L S (then_fetch T L S owner now pid p o))) (sym e)
        (let (stored, v, held) = seg_init-Holds now 0 pid p h sent in (stored ∙ g, v, held))

  -- The client's manifest: the node asks for one to be created, and starts the fetcher.
  told-Holds :
      (now : ℕ) (hint : Option Text) (content : Text) (pid : ℕ) (h : WriteHandle T L S)
      (process : ProcessInfo) (m : Manifest)
      → lookup pid h.processes ≡ some process
      → from_info_json json content ≡ some m
      → ((x : Text) → (repo : Text) × (owner x ≡ some repo))
      → Holds pid h.store
          (state_of T L S (on_data_validated T L S owner json now hint content pid h))
  unfolding on_data_validated
  told-Holds now hint content pid h process m at reads owns =
      rw (at, reads) (choose process.manifest_sent)
    where
      h' : WriteHandle T L S
      h' =
          set_process T L S pid
            (record process {
              start_block_id = m.start_block_id;
              end_block_id = m.end_block_id;
              name = 47 ∷ last_component m.name;
              repo = h.repo_prefix;
              manifest_sent = true;
            })
            h

      p : RepoCommandParameter
      p = record Parameter.empty { name = some m.name; start_block_id = some 0; node_prefix = hint }

      choose :
          (b : Bool)
          → Holds pid h.store (
              state_of T L S (
                then_fetch T L S owner now pid p
                  (if b then done h' [] else write_manifest T L S owner pid h')))
      choose true =
          then_fetch-Holds now pid p h.store (done h' []) h' [] refl (set_process-Holds pid _ h).0
      choose false =
          let (repo, e) = owns (hash_of L.sha1 (process_at T L S pid h').name) in
          then_fetch-Holds now pid p h.store _ _ _ (write_manifest_lem T L S owner pid h' repo e)
            ((set_process-Holds pid _ h').0 ∙ (set_process-Holds pid _ h).0)

  module _ (Valid : S.State → Type 0) (C : Contract L S Valid) where
    -- A client puts a file whose last block is neither empty nor full, and whose blocks fit an
    -- `int`. A node with no process of that number begins the insertion, reads the client's
    -- manifest, where the key space names a node for every hash, and gets the packets in order, each
    -- within ten seconds of the reading. If the names of the
    -- packets have keys that differ from one another and from those of the full names of the
    -- packets after them, and nothing was kept under the full names, then a client that asks the
    -- node for the segments, from 0 on, gets a packet for each of them, and their contents, one
    -- after another, are the file.
    pub put-fetch_file :
        (time : Segment → ℕ) (now pid : ℕ) (hint : Option Text) (p : RepoCommandParameter)
        (h : WriteHandle T L S) (reader : ReadHandle L S) (file : Text) (size : ℕ)
        → 0 < size
        → length file / size < 2 ^ 31
        → 0 < length file % size
        → lookup pid h.processes ≡ none
        → ((s : Segment) → time s ≤ now + 10000)
        → ((x : Text) → (repo : Text) × (owner x ≡ some repo))
        → Valid h.store
        → Apart L S K name (put_file_prepare_next_data file size)
        → AllNew L S K name (put_file_prepare_next_data file size) h.store
        → let packets = put_file_prepare_next_data file size in
          let info = to_info_json L.sha1 json (file_manifest name file size) in
          let asked = state_of T L S (process_single_insert_command T L S pid p h) in
          let told = state_of T L S (on_data_validated T L S owner json now hint info pid asked) in
          let node = feed T L S (arriving L S K name T time packets) pid told in
          fetch_file L S K name (suc (length file / size)) 0 (record reader { store = node.store })
          ≡ some file
    put-fetch_file time now pid hint p h reader file size positive fits rest fresh in_time owns
          valid apart new =
        let packets = put_file_prepare_next_data file size in
        let info = to_info_json L.sha1 json (file_manifest name file size) in
        let asked = state_of T L S (process_single_insert_command T L S pid p h) in
        let (same, process, at) = single-Holds pid p h in
        let told = state_of T L S (on_data_validated T L S owner json now hint info pid asked) in
        let (same', process', at') =
          told-Holds now hint info pid asked process _ at
            (from_info_json-to_info_json L.sha1 json (file_manifest name file size)) owns in
        let kept : told.store ≡ h.store = same' ∙ same in
        let (v, held, waits, count) =
          told-Counts T L S owner json now pid hint info _ p h fresh
            (from_info_json-to_info_json L.sha1 json (file_manifest name file size)) owns in
        feed-fetch_file L S K name T Valid C time pid (now + 10000) told reader file size positive
          fits rest in_time (v, held, waits) (subst Valid (sym kept) valid) apart
          (subst (AllNew L S K name packets) (sym kept) new)
