-- ===== src/DeleteHandle.antt =====
-- src/handles/delete-handle.cpp: a deletion is led by the node that keeps the manifest, which asks
-- every repository of the manifest for its segments, one after another.
pub mod Replies
pub mod Segments
pub mod Responses
pub mod Process
pub mod Refused
use difs.Prelude.{
  Text, codes, ℕ, zero, suc, ◌+◌, ◌%◌, ◌^◌, ltb, leb, Bool, true, false, List, [], ◌∷◌, ◌++◌,
  Option, none, some, drop, if◌then◌else◌, is_some, ◌==◌, is_nil,
}
use difs.Prelude.Int.{ℤ, to_u64}
use difs.Prelude.Assoc.{Assoc, lookup, put, erase}
use difs.Tlv.{Tlv}
use difs.Tlv.Fields.{map_option}
use difs.Manifest.{Repo, Manifest, get_hash, hash_of}
use difs.Command.Parameter.{RepoCommandParameter, empty}
use difs.Command.Response.{
  RepoCommandResponse, make, set_code, set_text, set_body, set_delete_num, set_process_id,
  wire_encode,
}
use difs.Storage.{Libs, Storage, Loaded, missing, broken, found}
use difs.Storage.RepoStorage.{as_bool, delete_data, read_manifest, delete_manifest}

-- `ProcessInfo`; an interest is its name.
pub record ProcessInfo : Type 0 where
  pub interest : Text
  pub repos : List Repo
  pub name : Text
  pub hash : Text

-- A new entry of the map.
abbrev pub no_process : ProcessInfo
no_process = record { interest = []; repos = []; name = []; hash = [] }

-- What the handlers send: a reply to an interest, the answer of a control command, and the two
-- commands to another node, with the process that their response belongs to.
pub data Sent : Type 0 where
  replied : Text → RepoCommandResponse → Sent
  replied_text : Text → Text → Sent
  answered : RepoCommandResponse → Sent
  asked_delete_data : Text → RepoCommandParameter → ℕ → Sent
  asked_delete_manifest : Text → RepoCommandParameter → ℕ → Sent

abbrev pub some_or {ℓ} : {A : Type ℓ} → A → Option A → A
some_or a none = a
some_or a (some b) = b

module _ (T : Tlv) where
  -- `response.setBody(response.wireEncode())`; a response made with a code has a wire.
  abbrev with_body : RepoCommandResponse → Option (Text × RepoCommandResponse) → RepoCommandResponse
  with_body r none = r
  with_body r (some (w, r')) = set_body w r'

  unfoldable pub negative_reply : ℕ → Text → RepoCommandResponse
  unfolding make set_body wire_encode
  negative_reply code text = with_body (make code text) (wire_encode T (make code text))

  abbrev filled : ℕ → Option ℕ → RepoCommandResponse → RepoCommandResponse
  filled deleted (some pid) r = set_delete_num deleted (set_process_id pid r)
  filled deleted none r = set_text (codes "Malformed Command") (set_code 403 r)

  unfoldable pub positive_reply : RepoCommandParameter → ℕ → ℕ → RepoCommandResponse
  unfolding make set_body wire_encode set_code set_text set_delete_num set_process_id
  positive_reply p code deleted =
      let r = filled deleted p.process_id (make code (codes "Deletion Successful")) in
      with_body r (wire_encode T r)

  module _ (L : Libs) (S : Storage L) where
    pub record DeleteHandle : Type 0 where
      pub processes : Assoc ProcessInfo
      pub store : S.State

    -- A handler ends, or throws; `front` of an empty list, which is undefined, counts as a throw.
    pub data Outcome : Type 0 where
      done : DeleteHandle → List Sent → Outcome
      threw : DeleteHandle → List Sent → Outcome

    -- `m_processes[pid]`.
    unfoldable pub process_at : ℕ → DeleteHandle → ProcessInfo
    unfolding lookup
    process_at pid h = some_or no_process (lookup pid h.processes)

    unfoldable pub set_process : ℕ → ProcessInfo → DeleteHandle → DeleteHandle
    unfolding put
    set_process pid process h = record h { processes = put pid process h.processes }

    -- The hash of a name, without its leading `/`.
    abbrev hash_in : RepoCommandParameter → Text
    hash_in p = drop 1 (some_or [] p.name)

    -- `handleDeleteCommand`, which sends the hash as a name; `repo` is what the key space answers for the hash, and `none` is its
    -- exception.
    abbrev ask_owner : ℕ → Text → DeleteHandle → Option Text → Outcome
    ask_owner pid hash h none = threw h []
    ask_owner pid hash h (some repo) = done h (
        asked_delete_manifest repo (record empty { name = some (47 ∷ hash); process_id = some pid })
          pid
        ∷ [])

    unfoldable pub handle_delete_command :
        (Text → Option Text) → Text → RepoCommandParameter → DeleteHandle → Outcome
    unfolding process_at set_process
    handle_delete_command get_manifest_storage interest p h =
        let hash = hash_of L.sha1 (some_or [] p.name) in
        let pid = some_or 0 p.process_id in
        let h' = set_process pid (record (process_at pid h) { interest = interest }) h in
        ask_owner pid hash h' (get_manifest_storage hash)

    unfoldable pub on_delete_manifest_command_response :
        ℕ → RepoCommandParameter → ℕ → DeleteHandle → Outcome
    unfolding positive_reply negative_reply erase
    on_delete_manifest_command_response code p pid h =
        done (record h { processes = erase pid h.processes })
          (answered (
              if code == 200
              then positive_reply p 200 1
              else negative_reply 404 (codes "Manifest not found"))
            ∷ [])

    -- A timeout answers the interest that was sent, not the one that the process is for.
    unfoldable pub on_timeout : Text → ℕ → DeleteHandle → Outcome
    unfolding negative_reply process_at set_process
    on_timeout interest pid h =
        done (set_process pid (process_at pid h) h)
          (replied interest (negative_reply 405 (codes "Deletion Failed")) ∷ [])

    abbrev not_found_reply : Text → Sent
    not_found_reply interest = replied interest (negative_reply 405 (codes "Manifest not found"))

    abbrev pub only_delete : Text → Text → DeleteHandle → Loaded Manifest → Outcome
    only_delete interest hash h missing = done h (not_found_reply interest ∷ [])
    only_delete interest hash h broken = threw h []
    only_delete interest hash h (found m) =
        done (record h { store = (delete_manifest L S hash h.store).1 })
          (replied_text interest [] ∷ [])

    unfoldable pub handle_only_delete_manifest_command :
        Text → RepoCommandParameter → DeleteHandle → Outcome
    unfolding negative_reply delete_manifest read_manifest
    handle_only_delete_manifest_command interest p h =
        only_delete interest (hash_in p) h (read_manifest L S (hash_in p) h.store)

    -- `deleteData`: the next repository is asked; `fresh` is the random number of the command.
    unfoldable pub delete_data_from : ℕ → ℕ → DeleteHandle → List Repo → Outcome
    unfolding process_at set_process
    delete_data_from pid fresh h [] = threw h []
    delete_data_from pid fresh h (repo ∷ repos) =
        done (set_process pid (record (process_at pid h) { repos = repos }) h) (
          asked_delete_data repo.name
            (record empty {
              name = some (process_at pid h).name;
              start_block_id = some (to_u64 repo.start);
              end_block_id = some (to_u64 repo.end);
              process_id = some fresh;
            })
            pid
          ∷ [])

    unfoldable pub delete_next : ℕ → ℕ → DeleteHandle → Outcome
    unfolding delete_data_from
    delete_next pid fresh h = delete_data_from pid fresh h (process_at pid h).repos

    abbrev start_process : Text → Text → ℕ → ℕ → DeleteHandle → Loaded Manifest → Outcome
    start_process interest hash pid fresh h missing = done h (not_found_reply interest ∷ [])
    start_process interest hash pid fresh h broken = threw h []
    start_process interest hash pid fresh h (found m) = delete_next pid fresh (
        set_process pid (record (process_at pid h) { repos = m.repos; name = m.name; hash = hash })
          h)

    -- `pid` is the random number of the process.
    unfoldable pub handle_delete_manifest_command :
        Text → RepoCommandParameter → ℕ → ℕ → DeleteHandle → Outcome
    unfolding negative_reply delete_next read_manifest process_at set_process
    handle_delete_manifest_command interest p pid fresh h =
        let h' = set_process pid (record (process_at pid h) { interest = interest }) h in
        start_process interest (hash_in p) pid fresh h' (read_manifest L S (hash_in p) h.store)

    -- The last repository has answered.
    abbrev finish : RepoCommandParameter → ℕ → DeleteHandle → Outcome
    finish p pid h =
        done
          (record {
            processes = erase pid h.processes;
            store = (delete_manifest L S (process_at pid h).hash h.store).1;
          })
          (replied (process_at pid h).interest (positive_reply p 200 1) ∷ [])

    -- A refusal answers the interest that was sent, too.
    unfoldable pub on_delete_data_command_response :
        Text → ℕ → RepoCommandParameter → ℕ → ℕ → DeleteHandle → Outcome
    unfolding negative_reply positive_reply erase delete_manifest delete_next process_at set_process
    on_delete_data_command_response interest code p pid fresh h =
        let h' = set_process pid (process_at pid h) h in
        if ltb 400 code
        then done h' (replied interest (negative_reply 405 (codes "Delete data failed")) ∷ [])
        else if is_nil (process_at pid h).repos
        then finish p pid h'
        else delete_next pid fresh h'

    -- The loop of `handleDeleteDataCommand`, with the store and the count; `none` if the fuel does
    -- not suffice.
    module _ (append_segment : Text → ℕ → Text) where
      unfoldable pub delete_segments : ℕ → Text → ℕ → ℕ → ℕ → S.State → Option (ℕ × S.State)
      unfolding as_bool delete_data
      delete_segments zero name i end deleted s = none
      delete_segments (suc fuel) name i end deleted s =
          let (erased, s') = delete_data L S (append_segment name i) s in
          let rest =
            delete_segments fuel name ((i + 1) % 2 ^ 64) end
              ((if as_bool erased then deleted + 1 else deleted) % 2 ^ 64) s' in
          if leb i end then rest else some (deleted, s)

      abbrev report : Text → RepoCommandParameter → DeleteHandle → ℕ × S.State → Outcome
      report interest p h (deleted, s) =
          done (record h { store = s }) (replied interest (positive_reply p 200 deleted) ∷ [])

      abbrev refuse : Text → Text → DeleteHandle → Outcome
      refuse interest text h = done h (replied interest (negative_reply 403 text) ∷ [])

      abbrev delete_range :
          ℕ → Text → RepoCommandParameter → DeleteHandle → Option ℕ → Option ℕ → Option Outcome
      delete_range fuel interest p h (some start) (some end) =
          if ltb end start
          then some (refuse interest (codes "Start block id > End block id") h)
          else map_option (report interest p h)
              (delete_segments fuel (some_or [] p.name) start end 0 h.store)
      delete_range fuel interest p h start end =
          some (refuse interest (codes "Start/End block id not set") h)

      unfoldable pub handle_delete_data_command :
          ℕ → Text → RepoCommandParameter → DeleteHandle → Option Outcome
      unfolding delete_segments positive_reply negative_reply
      handle_delete_data_command fuel interest p h =
          delete_range fuel interest p h p.start_block_id p.end_block_id
