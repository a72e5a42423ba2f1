-- ===== src/WriteHandle/Created.antt =====
-- The manifest of a new file, from the node that writes it to a search.
use difs.Prelude.{Text, ℕ, ◌≡◌, refl, false, [], ◌∷◌, Option, some, drop, ◌==◌, arith, true}
use difs.Prelude.Assoc.{lookup, put}
use difs.Tlv.{Tlv}
use difs.Manifest.{Manifest, make, append_repo, get_hash, hash_of, to_json}
use difs.Command.Parameter
use difs.Command.Parameter.{RepoCommandParameter, tlv_cluster_prefix}
use difs.Command.Response.{RepoCommandResponse}
use difs.Storage.{Libs, Storage, Contract}
use difs.WriteHandle
use difs.WriteHandle.{ProcessInfo, WriteHandle, asked_create, process_at, set_process}
use difs.WriteHandle.Creation.{write_manifest, handle_info_command}
use difs.ManifestHandle
use difs.ManifestHandle.{ManifestHandle, on_data_validated, handle_find_command, some_or}
use difs.ManifestHandle.Stored.{state_of, find-on_data}

module _ (T : Tlv) (L : Libs) (S : Storage L) (owner : Text → Option Text) where
  -- The manifest of a process: one repository, this node, with all the segments.
  abbrev pub new_manifest : ProcessInfo → Manifest
  new_manifest v = record {
    name = v.name;
    hash = [];
    repos = record { name = v.repo; start = v.start_block_id; end = v.end_block_id } ∷ [];
    start_block_id = v.start_block_id;
    end_block_id = v.end_block_id;
  }

  -- The handle once the manifest is made.
  abbrev pub with_manifest : ℕ → WriteHandle T L S → WriteHandle T L S
  with_manifest pid h =
      set_process T L S pid
        (record (process_at T L S pid h) {
          manifest = some (new_manifest (process_at T L S pid h));
        })
        h

  pub write_manifest_lem :
      (pid : ℕ) (h : WriteHandle T L S) (repo : Text)
      → owner (hash_of L.sha1 (process_at T L S pid h).name) ≡ some repo
      → write_manifest T L S owner pid h
        ≡ WriteHandle.done (with_manifest pid h) (
            asked_create repo (record Parameter.empty {
              name = some (47 ∷ hash_of L.sha1 (process_at T L S pid h).name);
              cluster_prefix =
                  some (record { type = tlv_cluster_prefix; value = h.cluster_node_prefix });
              process_id = some pid;
            })
            ∷ [])
  unfolding write_manifest append_repo make get_hash set_process
  write_manifest_lem pid h repo e = rw e refl

  handle_info_command_lem :
      (pid : ℕ) (h : WriteHandle T L S) (p : RepoCommandParameter)
      → p.process_id ≡ some pid
      → handle_info_command T L S p (with_manifest pid h)
        ≡ WriteHandle.done (with_manifest pid h) (
            WriteHandle.replied_text (to_json L.sha1 L.json (new_manifest (process_at T L S pid h)))
            ∷ [])
  unfolding handle_info_command set_process put lookup
  handle_info_command_lem pid h p e =
      let self : (pid == pid) ≡ true = ground arith in rw (e, self) refl

  module _ (R : Storage L) (Valid : R.State → Type 0) (C : Contract L R Valid) where
    -- A node that writes the manifest of a file asks the node that the key space names for the hash
    -- to create it, and answers that node's request with the manifest, which lists this node alone.
    -- A node whose storage keeps the contract, with a process that waits for it, stores what it
    -- gets, and answers a later search for the hash with the same manifest.
    pub created :
        (pid : ℕ) (h : WriteHandle T L S) (repo : Text) (q : RepoCommandParameter) (wait : ℕ)
        (node : ManifestHandle L R) (response : RepoCommandResponse) (p : RepoCommandParameter)
        → owner (hash_of L.sha1 (process_at T L S pid h).name) ≡ some repo
        → q.process_id ≡ some pid
        → Valid node.store
        → lookup wait node.processes ≡ some response
        → some_or 0 response.insert_num ≡ 0
        → drop 1 (some_or [] p.name) ≡ hash_of L.sha1 (process_at T L S pid h).name
        → let sent = to_json L.sha1 L.json (new_manifest (process_at T L S pid h)) in
          let kept = state_of L R (on_data_validated L R sent wait node) in
          (write_manifest T L S owner pid h
            ≡ WriteHandle.done (with_manifest pid h) (
                asked_create repo (record Parameter.empty {
                  name = some (47 ∷ hash_of L.sha1 (process_at T L S pid h).name);
                  cluster_prefix =
                      some (record { type = tlv_cluster_prefix; value = h.cluster_node_prefix });
                  process_id = some pid;
                })
                ∷ []))
          × (handle_info_command T L S q (with_manifest pid h)
              ≡ WriteHandle.done (with_manifest pid h) (WriteHandle.replied_text sent ∷ []))
          × (handle_find_command L R false p kept
              ≡ ManifestHandle.done kept (ManifestHandle.replied_text sent ∷ []))
    created pid h repo q wait node response p e f v at fresh named = (
      write_manifest_lem pid h repo e,
      handle_info_command_lem pid h q f,
      find-on_data L R Valid C (new_manifest (process_at T L S pid h)) wait node response p v at
          fresh (omega arith) named,
    )
