-- ===== src/WriteHandle/Creation.antt =====
-- src/handles/write-handle.cpp: the commands that need the key space, and the manifest of a new
-- file.
use difs.Prelude.{Text, ℕ, true, [], ◌∷◌, Option, none, some, if◌then◌else◌}
use difs.Prelude.Assoc.{lookup}
use difs.Json.{JsonCodec}
use difs.Tlv.{Tlv}
use difs.Manifest.{Manifest, InfoDoc, make, append_repo, get_hash, hash_of, from_info_json, to_json}
use difs.Command.Parameter
use difs.Command.Parameter.{RepoCommandParameter, tlv_cluster_prefix}
use difs.Storage.{Libs, Storage}
use difs.WriteHandle.{
  ProcessInfo, WriteHandle, Outcome, done, threw, asked_find, asked_create, replied_text, some_or,
  last_component, process_at, set_process, seg_init, also_sent,
}

module _ (T : Tlv) (L : Libs) (S : Storage L) where
  -- The commands that need the key space: `owner` is what `getManifestStorage` answers.
  module _ (owner : Text → Option Text) where
    abbrev ask_find : Text → ℕ → WriteHandle T L S → Option Text → Outcome T L S
    ask_find hash pid h none = threw h []
    ask_find hash pid h (some repo) = done h (
        asked_find repo (record Parameter.empty { name = some (47 ∷ hash); process_id = some pid })
        ∷ [])

    unfoldable pub handle_insert_command : RepoCommandParameter → WriteHandle T L S → Outcome T L S
    handle_insert_command p h =
        let hash = hash_of L.sha1 (47 ∷ last_component (some_or [] p.name)) in
        ask_find hash (some_or 0 p.process_id) h (owner hash)

    abbrev ask_create : Text → ℕ → WriteHandle T L S → Option Text → Outcome T L S
    ask_create hash pid h none = threw h []
    ask_create hash pid h (some repo) = done h (
        asked_create repo (record Parameter.empty {
          name = some (47 ∷ hash);
          cluster_prefix =
              some (record { type = tlv_cluster_prefix; value = h.cluster_node_prefix });
          process_id = some pid;
        })
        ∷ [])

    abbrev pub manifest_of : ProcessInfo → Manifest
    manifest_of process =
        append_repo process.repo process.start_block_id process.end_block_id
          (make process.name process.start_block_id process.end_block_id)

    unfoldable pub write_manifest : ℕ → WriteHandle T L S → Outcome T L S
    write_manifest pid h =
        let process = process_at T L S pid h in
        let m = manifest_of process in
        let h' = set_process T L S pid (record process { manifest = some m }) h in
        ask_create (get_hash L.sha1 m) pid h' (owner (get_hash L.sha1 m))

    abbrev pub then_fetch : ℕ → ℕ → RepoCommandParameter → Outcome T L S → Outcome T L S
    then_fetch now pid p (threw h sent) = threw h sent
    then_fetch now pid p (done h sent) = also_sent T L S sent (seg_init T L S now 0 pid p h)

    abbrev take_info :
        ℕ → Option Text → ℕ → WriteHandle T L S → ProcessInfo → Option Manifest → Outcome T L S
    take_info now hint pid h process none = threw h []
    take_info now hint pid h process (some m) =
        let process' = record process {
          start_block_id = m.start_block_id;
          end_block_id = m.end_block_id;
          name = 47 ∷ last_component m.name;
          repo = h.repo_prefix;
          manifest_sent = true;
        } in
        let p = record Parameter.empty {
          name = some m.name;
          start_block_id = some 0;
          node_prefix = hint;
        } in
        let h' = set_process T L S pid process' h in
        then_fetch now pid p (if process.manifest_sent then done h' [] else write_manifest pid h')

    abbrev with_process :
        WriteHandle T L S → Option ProcessInfo → (ProcessInfo → Outcome T L S) → Outcome T L S
    with_process h none f = done h []
    with_process h (some process) f = f process

    -- `hint` is the forwarding hint of the interest, if it has one.
    unfoldable pub on_data_validated :
        JsonCodec InfoDoc → ℕ → Option Text → Text → ℕ → WriteHandle T L S → Outcome T L S
    on_data_validated json now hint content pid h =
        with_process h (lookup pid h.processes)
          (λ process. take_info now hint pid h process (from_info_json json content))

  -- A process without a manifest is a null pointer, and counts as a throw.
  abbrev send_manifest : WriteHandle T L S → Option ProcessInfo → Outcome T L S
  send_manifest h none = done h []
  send_manifest h (some process) = elim process.manifest [
    | none ↦ threw h []
    | some m ↦ done h (replied_text (to_json L.sha1 L.json m) ∷ [])
  ]

  unfoldable pub handle_info_command : RepoCommandParameter → WriteHandle T L S → Outcome T L S
  handle_info_command p h = send_manifest h (lookup (some_or 0 p.process_id) h.processes)
