-- ===== src/WriteHandle.antt =====
-- src/handles/write-handle.cpp: an insertion asks first whether the manifest is known, then
-- fetches the segments; each segment that arrives is stored and counted in the response that the
-- check command returns. Times are milliseconds, and a name is its URI.
mod State
pub mod Creation
pub mod Created
pub mod Arrivals
pub mod Running
pub mod Segments
pub use State.{
  ProcessInfo, no_process, Fetch, Sent, answered, replied_text, asked_find, asked_create,
  asked_data, fetched, stopped, deferred, signalled, some_or, last_component,
}
unfoldable pub use State.{initial_credit, after_slash}
use difs.Prelude.{
  Text, codes, ℕ, zero, suc, ◌+◌, ◌-◌, ◌%◌, ◌^◌, ltb, leb, ◌==◌, Bool, true, false, ◌||◌, List, [],
  ◌∷◌, ◌++◌, Option, none, some, is_some, is_nil, if◌then◌else◌,
}
use difs.Prelude.Int.{ℤ, pos, to_i32, to_u64}
use difs.Prelude.Assoc.{Assoc, lookup, put, erase}
use difs.Json.{JsonCodec}
use difs.Tlv.{Tlv, Element}
use difs.Manifest.{Manifest, InfoDoc, make, append_repo, get_hash, hash_of, from_info_json, to_json}
use difs.Command.Parameter
use difs.Command.Parameter.{RepoCommandParameter, tlv_cluster_prefix}
use difs.Command.Response
use difs.Command.Response.{
  RepoCommandResponse, set_code, set_body, set_process_id, set_insert_num, set_start_block_id,
  set_end_block_id, wire_encode,
}
use difs.Storage.{Libs, Storage}
use difs.Storage.RepoStorage.{Reply, insert_data}

module _ (T : Tlv) where
  -- `response.setBody(response.wireEncode())`; a response with a code has a wire.
  abbrev with_body : RepoCommandResponse → Option (Text × RepoCommandResponse) → RepoCommandResponse
  with_body r none = r
  with_body r (some (w, r')) = set_body w r'

  unfoldable pub encoded : RepoCommandResponse → RepoCommandResponse
  unfolding set_body wire_encode
  encoded r = with_body r (wire_encode T r)

  unfoldable pub negative_reply : Text → ℕ → RepoCommandResponse
  unfolding encoded
  negative_reply text code = encoded (Response.make code text)

  module _ (L : Libs) (S : Storage L) where
    pub record WriteHandle : Type 0 where
      pub cluster_node_prefix : Text
      pub repo_prefix : Text
      pub interest_lifetime : ℕ
      pub processes : Assoc ProcessInfo
      pub store : S.State

    pub data Outcome : Type 0 where
      done : WriteHandle → List Sent → Outcome
      threw : WriteHandle → List Sent → Outcome

    unfoldable pub process_at : ℕ → WriteHandle → ProcessInfo
    unfolding lookup
    process_at pid h = some_or no_process (lookup pid h.processes)

    unfoldable pub set_process : ℕ → ProcessInfo → WriteHandle → WriteHandle
    unfolding put
    set_process pid process h = record h { processes = put pid process h.processes }

    unfoldable pub delete_process : ℕ → WriteHandle → WriteHandle
    unfolding erase
    delete_process pid h = record h { processes = erase pid h.processes }

    -- `segInit`: the process and the fetcher. `unset` is what `m_startBlockId` holds where it was
    -- never set.
    abbrev pub seg_process : ℕ → RepoCommandParameter → ProcessInfo → ProcessInfo
    seg_process now p process = elim p.end_block_id [
      | none ↦ record process { no_end_time = now + 10000 }
      | some end ↦ record process { end_block_id = to_i32 end }
    ]

    unfoldable pub seg_init : ℕ → ℕ → ℕ → RepoCommandParameter → WriteHandle → Outcome
    unfolding initial_credit process_at set_process to_i32
    seg_init now unset pid p h =
        let start = some_or unset p.start_block_id in
        done (set_process pid (seg_process now p (process_at pid h)) h) (
          fetched (record {
            name = some_or [] p.name;
            segment = start;
            credit = initial_credit p.end_block_id start;
            hint = p.node_prefix;
            process = pid;
          })
          ∷ [])

    abbrev pub also_sent : List Sent → Outcome → Outcome
    also_sent first (done h sent) = done h (first ++ sent)
    also_sent first (threw h sent) = threw h (first ++ sent)

    -- The response of a new process, before it is sent.
    abbrev new_response : ℕ → Option ℕ → RepoCommandResponse → RepoCommandResponse
    new_response pid none r = set_insert_num 0 (set_process_id pid (set_code 100 r))
    new_response pid (some start) r =
        set_start_block_id start (set_insert_num 0 (set_process_id pid (set_code 100 r)))

    -- A new process: the response goes out with the code 100, and has the code 300 from then on.
    unfoldable pub begin : ℕ → RepoCommandResponse → WriteHandle → WriteHandle
    unfolding encoded set_code process_at set_process
    begin pid r h =
        set_process pid (record (process_at pid h) { response = set_code 300 (encoded r) }) h

    abbrev begin_range : ℕ → ℕ → ℕ → RepoCommandParameter → WriteHandle → Option ℕ → Outcome
    begin_range now unset pid p h none =
        let r =
          new_response pid (some (some_or unset p.start_block_id)) (process_at pid h).response in
        also_sent (answered (encoded r) ∷ []) (seg_init now unset pid p (begin pid r h))
    begin_range now unset pid p h (some end) =
        let start = some_or 0 p.start_block_id in
        let r = set_end_block_id end (new_response pid (some start) (process_at pid h).response) in
        if ltb end start
        then done h (answered (negative_reply (codes "Malformed Command") 403) ∷ [])
        else also_sent (answered (encoded r) ∷ []) (seg_init now unset pid p (begin pid r h))

    -- `pid` is the random number of the process.
    unfoldable pub process_segmented_insert_command :
        ℕ → ℕ → ℕ → RepoCommandParameter → WriteHandle → Outcome
    unfolding set_code set_process_id set_insert_num set_start_block_id set_end_block_id seg_init
        begin negative_reply
    process_segmented_insert_command now unset pid p h =
        begin_range now unset pid p h p.end_block_id

    unfoldable pub process_single_insert_command : ℕ → RepoCommandParameter → WriteHandle → Outcome
    unfolding set_code set_process_id set_insert_num begin
    process_single_insert_command pid p h =
        let r = new_response pid none (process_at pid h).response in
        done (begin pid r h)
          (answered (encoded r) ∷ asked_data (some_or [] p.name) p.node_prefix pid ∷ [])

    abbrev set_lifetime : Option ℕ → Outcome → Outcome
    set_lifetime none o = o
    set_lifetime (some n) (done h sent) = done (record h { interest_lifetime = n }) sent
    set_lifetime (some n) (threw h sent) = threw h sent

    unfoldable pub on_find_response :
        ℕ → ℕ → ℕ → Text → RepoCommandParameter → WriteHandle → Outcome
    unfolding process_segmented_insert_command process_single_insert_command negative_reply
    on_find_response now unset pid content p h =
        if is_nil content
        then set_lifetime p.interest_lifetime (
            if is_some p.start_block_id || is_some p.end_block_id
            then process_segmented_insert_command now unset pid p h
            else process_single_insert_command pid p h)
        else done h (answered (negative_reply (codes "Manifest already exists") 403) ∷ [])

    -- The end of `onSegmentData`, with the response after the segment is counted.
    abbrev pub late : ℕ → ProcessInfo → Bool
    late now process = elim process.response.end_block_id [
      | none ↦ ltb process.no_end_time now
      | some end ↦ false
    ]

    abbrev pub complete : RepoCommandResponse → Bool
    complete r = elim r.end_block_id [
      | none ↦ false
      | some end ↦
          leb ((end + 2 ^ 64 - some_or 0 r.start_block_id + 1) % 2 ^ 64) (some_or 0 r.insert_num)
    ]

    abbrev pub note_end : ProcessInfo → ProcessInfo
    note_end process = elim process.response.end_block_id [
      | none ↦ process
      | some end ↦ record process { end_block_id = to_i32 end }
    ]

    unfoldable pub after_segment : ℕ → ℕ → ProcessInfo → WriteHandle → Outcome
    unfolding set_code set_process to_i32
    after_segment now pid process h =
        if late now process
        then done (set_process pid (record process { response = set_code 405 process.response }) h)
            (deferred pid ∷ stopped ∷ [])
        else if complete process.response
        then done
            (set_process pid
              (record (note_end process) { response = set_code 200 process.response }) h)
            (deferred pid ∷ stopped ∷ [])
        else done (set_process pid (note_end process) h) []

    abbrev pub counted : Bool → RepoCommandResponse → RepoCommandResponse
    counted inserted r =
        if inserted then set_insert_num ((some_or 0 r.insert_num + 1) % 2 ^ 64) r else r

    abbrev pub signals : Option Text → List Sent
    signals none = []
    signals (some name) = signalled name ∷ []

    abbrev store_segment : ℕ → L.Data → ℕ → WriteHandle → Option ProcessInfo → Outcome
    store_segment now d pid h none = done h (stopped ∷ [])
    store_segment now d pid h (some process) =
        let (reply, store) = insert_data L S d h.store in
        also_sent (signals reply.signal) (
          after_segment now pid (record process { response = counted reply.value process.response })
            (record h { store = store }))

    unfoldable pub on_segment_data : ℕ → L.Data → ℕ → WriteHandle → Outcome
    unfolding after_segment insert_data set_insert_num lookup
    on_segment_data now d pid h = store_segment now d pid h (lookup pid h.processes)

    unfoldable pub extend_no_end_time : ℕ → ProcessInfo → ProcessInfo
    unfolding set_code
    extend_no_end_time now process =
        if ltb process.no_end_time now
        then record process { response = set_code 405 process.response }
        else record process { no_end_time = now + 10000 }

    abbrev check_process : ℕ → ℕ → WriteHandle → Option ProcessInfo → Outcome
    check_process now pid h none =
        done h (answered (negative_reply (codes "No such this process is in progress") 404) ∷ [])
    check_process now pid h (some process) = elim process.response.end_block_id [
      | none ↦
          let process' = extend_no_end_time now process in
          done (set_process pid process' h) (answered process'.response ∷ [])
      | some end ↦ done h (answered process.response ∷ [])
    ]

    unfoldable pub handle_check_command : ℕ → RepoCommandParameter → WriteHandle → Outcome
    unfolding extend_no_end_time negative_reply lookup set_process
    handle_check_command now p h =
        let pid = some_or 0 p.process_id in check_process now pid h (lookup pid h.processes)

    unfoldable pub on_timeout : ℕ → WriteHandle → WriteHandle
    unfolding erase
    on_timeout pid h = record h { processes = erase pid h.processes }
